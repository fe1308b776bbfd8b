-- ===== src/Prelude/Tables.antt =====
-- Queries and updates of tables, that is, of lists of rows.
use mathlib.Core.Path.{◌≡◌, refl, ap, ◌∙◌}
use mathlib.Core.Logic.{inl, inr}
use mathlib.Core.Bool.{Bool, true, false, ◌&&◌, ◌||◌, not}
use mathlib.Core.Option.{Option, none, some}
use mathlib.Core.List.{List, [], ◌∷◌, ◌++◌}
use native.Mathlib.Omega.{arith}
use argus_monitor.Prelude.Tests.{if◌then◌else◌, Bool-cases}
use argus_monitor.Prelude.Lists.{any, find, filter, update_where, In, here, there}

-- A null column.
abbrev pub is_null {ℓ} : {A : Type ℓ} → Option A → Bool
is_null none = true
is_null (some a) = false

module _ {ℓ} {A : Type ℓ} where
  -- What UPDATE does to a row.
  abbrev pub adjusted : (A → Bool) → (A → A) → A → A
  adjusted q f x = if q x then f x else x

  abbrev pub adjust : (A → Bool) → (A → A) → Option A → Option A
  adjust q f none = none
  adjust q f (some x) = some (adjusted q f x)

  -- A query that the update does not disturb finds the updated row.
  pub find-update_where :
      (p q : A → Bool) (f : A → A) (xs : List A)
      → ((x : A) → p (f x) ≡ p x)
      → find p (update_where q f xs) ≡ adjust q f (find p xs)
  find-update_where p q f [] same = refl
  find-update_where p q f (x ∷ xs) same = ground (arith, same x, find-update_where p q f xs same)

  pub find-any : (p : A → Bool) (xs : List A) → not (is_null (find p xs)) ≡ any p xs
  find-any p [] = refl
  find-any p (x ∷ xs) = ground (arith, find-any p xs)

  pub find-none : (p : A → Bool) (xs : List A) → any p xs ≡ false → find p xs ≡ none
  find-none p [] h = refl
  find-none p (x ∷ xs) h = ground (arith, find-none p xs)

  -- What a guarded value says.
  pub some_if : (b : Bool) (x y : A) → (if b then some x else none) ≡ some y → (x ≡ y) × (b ≡ true)
  some_if b x y h = ground arith

  pub any-append : (p : A → Bool) (xs ys : List A) → any p (xs ++ ys) ≡ (any p xs || any p ys)
  any-append p [] ys = refl
  any-append p (x ∷ xs) ys = ground (arith, any-append p xs ys)

  pub any-update_where :
      (p q : A → Bool) (f : A → A) (xs : List A)
      → any p (update_where q f xs) ≡ any (λ x. p (adjusted q f x)) xs
  any-update_where p q f [] = refl
  any-update_where p q f (x ∷ xs) = ap (λ b. p (adjusted q f x) || b) (any-update_where p q f xs)

  -- A query that only the updated rows pass finds the first of them.
  abbrev pub applied : (A → A) → Option A → Option A
  applied f none = none
  applied f (some x) = some (f x)

  pub find-update_new :
      (p q : A → Bool) (f : A → A) (xs : List A)
      → ((x : A) → p (f x) ≡ true)
      → any p xs ≡ false
      → find p (update_where q f xs) ≡ applied f (find q xs)
  find-update_new p q f [] passes h = refl
  find-update_new p q f (x ∷ xs) passes h =
      ground (arith, passes x, find-update_new p q f xs passes)

  pub any-filter-false :
      (p q : A → Bool) (xs : List A) → any p xs ≡ false → any p (filter q xs) ≡ false
  any-filter-false p q [] h = refl
  any-filter-false p q (x ∷ xs) h = ground (arith, any-filter-false p q xs)

  pub any-find :
      (p : A → Bool) (xs : List A) → any p xs ≡ true → (x : A) × (find p xs ≡ some x) × (p x ≡ true)
  any-find p [] h = ground arith
  any-find p (x ∷ xs) h = elim (Bool-cases (p x)) [
    | inl hit ↦ (x, rw hit refl, hit)
    | inr miss ↦ let (y, e, py) = any-find p xs (rw miss at h) in (y, rw miss e, py)
  ]

  -- A test of the rows that are there, by a test that agrees on them.
  pub any_ext_In :
      (p q : A → Bool) (xs : List A) → ((x : A) → In x xs → p x ≡ q x) → any p xs ≡ any q xs
  any_ext_In p q [] h = refl
  any_ext_In p q (x ∷ xs) h =
      ground (arith, h x (here refl), any_ext_In p q xs (λ y m. h y (there m)))

  pub any-false : (xs : List A) → any (λ x. false) xs ≡ false
  any-false [] = refl
  any-false (x ∷ xs) = any-false xs

  pub any-and : (b : Bool) (p : A → Bool) (xs : List A) → any (λ x. b && p x) xs ≡ (b && any p xs)
  any-and b p [] = ground arith
  any-and b p (x ∷ xs) = ground (arith, any-and b p xs)

  pub update_where_In :
      {y : A} (q : A → Bool) (f : A → A) (xs : List A)
      → In y (update_where q f xs)
      → (x : A) × In x xs × (y ≡ adjusted q f x)
  update_where_In q f [] m = elim m [ ]
  update_where_In q f (x ∷ xs) (here e) = (x, here refl, e)
  update_where_In q f (x ∷ xs) (there m) =
      let (z, n, e) = update_where_In q f xs m in (z, there n, e)

  pub In-update_where :
      {x : A} (q : A → Bool) (f : A → A) {xs : List A}
      → In x xs
      → In (adjusted q f x) (update_where q f xs)
  In-update_where q f (here e) = here (ap (adjusted q f) e)
  In-update_where q f (there m) = there (In-update_where q f m)

  -- The stable sort of the language: an element goes before the first of the later ones that it may
  -- precede.
  unfoldable pub insert_by : (A → A → Bool) → A → List A → List A
  insert_by before x [] = x ∷ []
  insert_by before x (y ∷ ys) = if before x y then x ∷ y ∷ ys else y ∷ insert_by before x ys

  unfoldable pub sort_by : (A → A → Bool) → List A → List A
  unfolding insert_by
  sort_by before [] = []
  sort_by before (x ∷ xs) = insert_by before x (sort_by before xs)

  pub any-insert_by :
      (p : A → Bool) (before : A → A → Bool) (x : A) (ys : List A)
      → any p (insert_by before x ys) ≡ (p x || any p ys)
  unfolding insert_by
  any-insert_by p before x [] = refl
  any-insert_by p before x (y ∷ ys) = ground (arith, any-insert_by p before x ys)

  pub any-sort_by :
      (p : A → Bool) (before : A → A → Bool) (xs : List A) → any p (sort_by before xs) ≡ any p xs
  unfolding sort_by
  any-sort_by p before [] = refl
  any-sort_by p before (x ∷ xs) =
      any-insert_by p before x (sort_by before xs) ∙ ap (λ b. p x || b) (any-sort_by p before xs)
