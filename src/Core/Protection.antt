-- ===== src/Core/Protection.antt =====
-- Guards for protected entities, packages/core/src/protection.ts. A thrown `ProtectedEntityError` is
-- the error of a `Guarded` result; the text of its message is not modelled.
use argus_monitor.Prelude.{String, Option, none, some, Bool, false, ◌||◌, if◌then◌else◌}

pub data Guarded {ℓ} (A : Type ℓ) : Type ℓ where
  ok : A → Guarded A
  protected_entity : String → Guarded A

infixl 5 ◌>>=◌ ◌>>◌
abbrev pub ◌>>=◌ {ℓ κ} : {A : Type ℓ} {B : Type κ} → Guarded A → (A → Guarded B) → Guarded B
ok a >>= f = f a
protected_entity what >>= f = protected_entity what

abbrev pub ◌>>◌ {ℓ} : {B : Type ℓ} → Guarded (Unit {0}) → Guarded B → Guarded B
m >> k = m >>= λ _. k

pub record Protectable : Type 0 where
  pub is_system : Option Bool
  pub is_owner : Option Bool

-- A nullish flag is false.
abbrev pub truthy : Option Bool → Bool
truthy none = false
truthy (some b) = b

unfoldable pub is_protected : Protectable → Bool
is_protected entity = truthy entity.is_system || truthy entity.is_owner

unfoldable pub assert_mutable : Protectable → String → Guarded (Unit {0})
assert_mutable entity what =
    if truthy entity.is_system || truthy entity.is_owner then protected_entity what else ok tt
