-- ===== src/Core/Base32/Tolerance.antt =====
-- Which texts the decoder of base32 reads, packages/core/src/totp.ts lines 41 to 64: white space may
-- stand anywhere, and "=" at the very end only.
use argus_monitor.Prelude.{
  ℕ, zero, suc, ◌≡◌, ◌⊎◌, List, [], ◌∷◌, Bool, true, false, not, nat_eq, filter, In,
}
use argus_monitor.Core.Base32.{alphabet, upper, is_space}

-- n times "=".
abbrev pub padding : ℕ → List ℕ
padding zero = []
padding (suc n) = 61 ∷ padding n

abbrev pub ends_padded : List ℕ → Bool
ends_padded [] = false
ends_padded (c ∷ []) = nat_eq c 61
ends_padded (c ∷ d ∷ s) = ends_padded (d ∷ s)

abbrev pub visible : List ℕ → List ℕ
visible s = filter (λ c. not (is_space c)) s

-- Every character is white space, or a character of the alphabet once it is raised.
abbrev pub IsBase32 : List ℕ → Type 0
IsBase32 body = (c : ℕ) → In c body → (is_space c ≡ true) ⊎ In (upper c) alphabet
