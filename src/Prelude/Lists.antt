-- ===== src/Prelude/Lists.antt =====
-- Lists measured by native numbers and filtered by Boolean tests.
use Prim.Native.Nat.{ℕ, zero, suc, ◌+◌}
use mathlib.Core.Path.{◌≡◌, refl, ap, ◌∙◌, subst}
use mathlib.Core.Logic.{◌⊎◌, inl, inr}
use mathlib.Core.Bool.{Bool, true, false, ◌&&◌, ◌||◌}
use mathlib.Core.Option.{Option, none, some}
use mathlib.Core.List.{List, [], ◌∷◌, ◌++◌, map}
use native.Mathlib.Omega.{arith}
use argus_monitor.Prelude.Tests.{if◌then◌else◌, Bool-cases}

module _ {ℓ} {A : Type ℓ} where
  abbrev pub length : List A → ℕ
  length [] = 0
  length (x ∷ xs) = suc (length xs)

  abbrev pub is_empty : List A → Bool
  is_empty [] = true
  is_empty (x ∷ xs) = false

  -- `xs.some(p)` and `xs.every(p)`.
  abbrev pub any : (A → Bool) → List A → Bool
  any p [] = false
  any p (x ∷ xs) = p x || any p xs

  abbrev pub all : (A → Bool) → List A → Bool
  all p [] = true
  all p (x ∷ xs) = p x && all p xs

  -- `xs.find(p)`, also the first row of a SELECT with LIMIT 1.
  abbrev pub find : (A → Bool) → List A → Option A
  find p [] = none
  find p (x ∷ xs) = if p x then some x else find p xs

  -- `xs.filter(p)`, by a Boolean test.
  abbrev pub filter : (A → Bool) → List A → List A
  filter p [] = []
  filter p (x ∷ xs) = let rest = filter p xs in if p x then x ∷ rest else rest

  -- UPDATE … SET … WHERE: the rows that pass are changed in place.
  abbrev pub update_where : (A → Bool) → (A → A) → List A → List A
  update_where p f [] = []
  update_where p f (x ∷ xs) = (if p x then f x else x) ∷ update_where p f xs

-- A predicate that holds of every element, and one that holds of some element.
module _ {ℓ κ} {A : Type ℓ} (P : A → Type κ) where
  abbrev pub All : List A → Type κ
  All [] = Unit
  All (x ∷ xs) = P x × All xs

  pub All-append : (xs ys : List A) → All xs → All ys → All (xs ++ ys)
  All-append [] ys hx hy = hy
  All-append (x ∷ xs) ys hx hy = (hx.0, All-append xs ys hx.1 hy)

-- Membership that keeps the place of the element.
module _ {ℓ} {A : Type ℓ} where
  pub data In (a : A) : List A → Type ℓ where
    here : {x : A} {xs : List A} → a ≡ x → In a (x ∷ xs)
    there : {x : A} {xs : List A} → In a xs → In a (x ∷ xs)

  pub In-append_left : {a : A} {xs : List A} (ys : List A) → In a xs → In a (xs ++ ys)
  In-append_left ys (here e) = here e
  In-append_left ys (there m) = there (In-append_left ys m)

  pub In-append_right : {a : A} (xs : List A) {ys : List A} → In a ys → In a (xs ++ ys)
  In-append_right [] m = m
  In-append_right (x ∷ xs) m = there (In-append_right xs m)

  pub In-append : {a : A} (xs : List A) {ys : List A} → In a (xs ++ ys) → In a xs ⊎ In a ys
  In-append [] m = inr m
  In-append (x ∷ xs) (here e) = inl (here e)
  In-append (x ∷ xs) (there m) = elim (In-append xs m) [ inl l ↦ inl (there l) | inr r ↦ inr r ]

  pub any_In : (p : A → Bool) (xs : List A) → any p xs ≡ true → (a : A) × In a xs × (p a ≡ true)
  any_In p [] h = absurd (ground arith)
  any_In p (x ∷ xs) h = elim (Bool-cases (p x)) [
    | inl hit ↦ (x, here refl, hit)
    | inr miss ↦ let (a, m, e) = any_In p xs (ground arith) in (a, there m, e)
  ]

  pub In-any : {a : A} (p : A → Bool) {xs : List A} → In a xs → p a ≡ true → any p xs ≡ true
  In-any p (here e) h = ground (arith, ap p e)
  In-any p (there m) h = ground (arith, In-any p m h)

  pub all_In : {a : A} (p : A → Bool) {xs : List A} → all p xs ≡ true → In a xs → p a ≡ true
  all_In p h (here e) = ground (arith, ap p e)
  all_In p h (there m) = all_In p (ground arith) m

  pub all_of : (p : A → Bool) (xs : List A) → ((a : A) → In a xs → p a ≡ true) → all p xs ≡ true
  all_of p [] h = refl
  all_of p (x ∷ xs) h = ground (arith, h x (here refl), all_of p xs (λ a m. h a (there m)))

  pub find-some : (p : A → Bool) (xs : List A) {a : A} → find p xs ≡ some a → In a xs × (p a ≡ true)
  find-some p [] h = absurd (ground arith)
  find-some p (x ∷ xs) h = elim (Bool-cases (p x)) [
    | inl hit ↦ (here (ground arith), ground arith)
    | inr miss ↦ let (m, e) = find-some p xs (ground arith) in (there m, e)
  ]

  pub In-filter : {a : A} (p : A → Bool) {xs : List A} → In a xs → p a ≡ true → In a (filter p xs)
  In-filter p {xs = []} m h = elim m [ ]
  In-filter p {xs = x ∷ xs} (here e) h = elim (Bool-cases (p x)) [
    | inl hit ↦ rw hit (here e)
    | inr miss ↦ absurd (ground (arith, ap p e))
  ]
  In-filter p {xs = x ∷ xs} (there m) h = elim (Bool-cases (p x)) [
    | inl hit ↦ rw hit (there (In-filter p m h))
    | inr miss ↦ rw miss (In-filter p m h)
  ]

  pub filter_In : {a : A} (p : A → Bool) (xs : List A) → In a (filter p xs) → In a xs × (p a ≡ true)
  filter_In p [] m = elim m [ ]
  filter_In {a} p (x ∷ xs) m = elim (Bool-cases (p x)) [
    | inl hit ↦ kept hit (filter_In p xs) (rw hit at m)
    | inr miss ↦ let (n, e) = filter_In p xs (rw miss at m) in (there n, e)
  ]
    where
      kept :
          p x ≡ true
          → (In a (filter p xs) → In a xs × (p a ≡ true))
          → In a (x ∷ filter p xs)
          → In a (x ∷ xs) × (p a ≡ true)
      kept hit ih (here e) = (here e, ap p e ∙ hit)
      kept hit ih (there n) = let (n', e) = ih n in (there n', e)

  pub any_ext : (p q : A → Bool) (xs : List A) → ((a : A) → p a ≡ q a) → any p xs ≡ any q xs
  any_ext p q [] h = refl
  any_ext p q (x ∷ xs) h = rw (h x, any_ext p q xs h)

module _ {ℓ κ} {A : Type ℓ} {B : Type κ} where
  -- `xs.flatMap(f)`, also the rows of a join.
  abbrev pub flat_map : (A → List B) → List A → List B
  flat_map f [] = []
  flat_map f (x ∷ xs) = f x ++ flat_map f xs

  pub In-flat_map :
      {b : B} {a : A} (f : A → List B) {xs : List A} → In a xs → In b (f a) → In b (flat_map f xs)
  In-flat_map {b} f (here {xs} e) m = In-append_left (flat_map f xs) (subst (λ t. In b (f t)) e m)
  In-flat_map f (there {x} n) m = In-append_right (f x) (In-flat_map f n m)

  pub flat_map_In :
      {b : B} (f : A → List B) (xs : List A) → In b (flat_map f xs) → (a : A) × In a xs × In b (f a)
  flat_map_In f [] m = elim m [ ]
  flat_map_In f (x ∷ xs) m = elim (In-append (f x) m) [
    | inl l ↦ (x, here refl, l)
    | inr r ↦ let (a, i, j) = flat_map_In f xs r in (a, there i, j)
  ]

  pub In-map : {a : A} (f : A → B) {xs : List A} → In a xs → In (f a) (map f xs)
  In-map f (here e) = here (ap f e)
  In-map f (there m) = there (In-map f m)

  pub map_In : {b : B} (f : A → B) (xs : List A) → In b (map f xs) → (a : A) × In a xs × (b ≡ f a)
  map_In f [] m = elim m [ ]
  map_In f (x ∷ xs) (here e) = (x, here refl, e)
  map_In f (x ∷ xs) (there m) = let (a, i, e) = map_In f xs m in (a, there i, e)

module _ {ℓ κ} {A : Type ℓ} {B : Type κ} where
  -- A row of a join comes from a row of the first table that passes the condition.
  pub join_In :
      {b : B} (p : A → Bool) (f : A → List B) (xs : List A)
      → In b (flat_map f (filter p xs))
      → (a : A) × In a xs × (p a ≡ true) × In b (f a)
  join_In p f xs m =
      let (a, i, j) = flat_map_In f (filter p xs) m in let (k, e) = filter_In p xs i in (a, k, e, j)

  pub In-join :
      {b : B} {a : A} (p : A → Bool) (f : A → List B) {xs : List A}
      → In a xs
      → p a ≡ true
      → In b (f a)
      → In b (flat_map f (filter p xs))
  In-join p f i e j = In-flat_map f (In-filter p i e) j

module _ {ℓ} {A : Type ℓ} where
  -- A `push` under a test.
  pub In-when : {a : A} (b : Bool) {x : A} → In a (if b then x ∷ [] else []) → (b ≡ true) × (a ≡ x)
  In-when true (here e) = (refl, e)
  In-when true (there m) = elim m [ ]
  In-when false m = elim m [ ]

  pub when-In : {a : A} (b : Bool) {x : A} → b ≡ true → a ≡ x → In a (if b then x ∷ [] else [])
  when-In b h e = rw h (here e)

module _ {ℓ} {A : Type ℓ} where
  abbrev pub get_or : List A → ℕ → A → A
  get_or [] i d = d
  get_or (x ∷ xs) zero d = x
  get_or (x ∷ xs) (suc i) d = get_or xs i d

  pub length-append : (xs ys : List A) → length (xs ++ ys) ≡ length xs + length ys
  length-append [] ys = omega arith
  length-append (x ∷ xs) ys = omega (arith, length-append xs ys)
