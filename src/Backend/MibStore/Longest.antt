-- ===== src/Backend/MibStore/Longest.antt =====
-- The stable sort by length puts the longest text first.
use argus_monitor.Prelude.{
  ℕ, ◌≤◌, ◌≡◌, sym, ap, inl, inr, subst, arith, some, List, [], ◌∷◌, map, Bool, true, false, find,
  find-some, length, In, here, there, insert_by, sort_by, Bool-cases,
}
use argus_monitor.Backend.MibStore.{Objects, is_under, longer_first, base_of}

-- No text of the list is longer.
abbrev AtLeast : List ℕ → List (List ℕ) → Type 0
AtLeast x [] = Unit {0}
AtLeast x (y ∷ ys) = (length y ≤ length x) × AtLeast x ys

abbrev Shortens : List (List ℕ) → Type 0
Shortens [] = Unit {0}
Shortens (x ∷ xs) = AtLeast x xs × Shortens xs

AtLeast-trans :
    (x y : List ℕ) (ys : List (List ℕ)) → length y ≤ length x → AtLeast y ys → AtLeast x ys
AtLeast-trans x y [] h k = tt
AtLeast-trans x y (z ∷ zs) h k = (omega arith, AtLeast-trans x y zs h k.1)

AtLeast-insert :
    (y x : List ℕ) (ys : List (List ℕ))
    → length x ≤ length y
    → AtLeast y ys
    → AtLeast y (insert_by longer_first x ys)
unfolding insert_by
AtLeast-insert y x [] h k = (h, tt)
AtLeast-insert y x (z ∷ zs) h k = elim (Bool-cases (longer_first x z)) [
  | inl first ↦ rw first (h, k)
  | inr later ↦ rw later (k.0, AtLeast-insert y x zs h k.1)
]

insert-Shortens :
    (x : List ℕ) (ys : List (List ℕ)) → Shortens ys → Shortens (insert_by longer_first x ys)
unfolding insert_by
insert-Shortens x [] d = (tt, tt)
insert-Shortens x (y ∷ ys) d = elim (Bool-cases (longer_first x y)) [
  | inl first ↦ rw first ((ground arith, AtLeast-trans x y ys (ground arith) d.0), d)
  | inr later ↦ rw later (AtLeast-insert y x ys (ground arith) d.0, insert-Shortens x ys d.1)
]

sort-Shortens : (xs : List (List ℕ)) → Shortens (sort_by longer_first xs)
unfolding sort_by
sort-Shortens [] = tt
sort-Shortens (x ∷ xs) = insert-Shortens x (sort_by longer_first xs) (sort-Shortens xs)

AtLeast-In :
    {y : List ℕ} (x : List ℕ) (ys : List (List ℕ)) → AtLeast x ys → In y ys → length y ≤ length x
AtLeast-In x [] k m = elim m [ ]
AtLeast-In x (z ∷ zs) k (here e) = subst (λ t. length t ≤ length x) (sym e) k.0
AtLeast-In x (z ∷ zs) k (there m) = AtLeast-In x zs k.1 m

-- The first that passes is no shorter than any that does.
find-longest :
    (p : List ℕ → Bool) (xs : List (List ℕ)) (x y : List ℕ)
    → Shortens xs
    → find p xs ≡ some x
    → In y xs
    → p y ≡ true
    → length y ≤ length x
find-longest p [] x y d e m h = elim m [ ]
find-longest p (z ∷ zs) x y d e m h = elim (Bool-cases (p z)) [
  | inl hit ↦ found hit m
  | inr miss ↦ later miss m (λ n. find-longest p zs x y d.1 (rw miss at e) n h)
]
  where
    found : p z ≡ true → In y (z ∷ zs) → length y ≤ length x
    found hit (here s) = let q = (rw hit at e) in ground (arith, ap (length {A = ℕ}) s)
    found hit (there n) = let q = (rw hit at e) in let k = AtLeast-In z zs d.0 n in ground arith

    later : p z ≡ false → In y (z ∷ zs) → (In y zs → length y ≤ length x) → length y ≤ length x
    later miss (here s) ih = absurd (ground (arith, ap p s))
    later miss (there n) ih = ih n

In-insert_by :
    {y : List ℕ} (x : List ℕ) (ys : List (List ℕ))
    → In y (x ∷ ys)
    → In y (insert_by longer_first x ys)
unfolding insert_by
In-insert_by x [] m = m
In-insert_by {y} x (z ∷ zs) m = elim (Bool-cases (longer_first x z)) [
  | inl first ↦ rw first m
  | inr later ↦ rw later (place m (In-insert_by x zs))
]
  where
    place :
        In y (x ∷ z ∷ zs)
        → (In y (x ∷ zs) → In y (insert_by longer_first x zs))
        → In y (z ∷ insert_by longer_first x zs)
    place (here e) ih = there (ih (here e))
    place (there (here e)) ih = here e
    place (there (there n)) ih = there (ih (there n))

In-sort_by : {y : List ℕ} (xs : List (List ℕ)) → In y xs → In y (sort_by longer_first xs)
unfolding sort_by
In-sort_by [] m = m
In-sort_by (x ∷ xs) (here e) = In-insert_by x (sort_by longer_first xs) (here e)
In-sort_by (x ∷ xs) (there m) = In-insert_by x (sort_by longer_first xs) (there (In-sort_by xs m))

insert_by_In :
    {y : List ℕ} (x : List ℕ) (ys : List (List ℕ))
    → In y (insert_by longer_first x ys)
    → In y (x ∷ ys)
unfolding insert_by
insert_by_In x [] m = m
insert_by_In {y} x (z ∷ zs) m = elim (Bool-cases (longer_first x z)) [
  | inl first ↦ (rw first at m)
  | inr later ↦ place (rw later at m) (insert_by_In x zs)
]
  where
    place :
        In y (z ∷ insert_by longer_first x zs)
        → (In y (insert_by longer_first x zs) → In y (x ∷ zs))
        → In y (x ∷ z ∷ zs)
    place (here e) ih = there (here e)
    place (there n) ih = swap (ih n)
      where
        swap : In y (x ∷ zs) → In y (x ∷ z ∷ zs)
        swap (here e) = here e
        swap (there k) = there (there k)

sort_by_In : {y : List ℕ} (xs : List (List ℕ)) → In y (sort_by longer_first xs) → In y xs
unfolding sort_by
sort_by_In [] m = m
sort_by_In {y} (x ∷ xs) m = place (insert_by_In x (sort_by longer_first xs) m) (sort_by_In xs)
  where
    place :
        In y (x ∷ sort_by longer_first xs)
        → (In y (sort_by longer_first xs) → In y xs)
        → In y (x ∷ xs)
    place (here e) ih = here e
    place (there n) ih = there (ih n)

-- The known OID that an OID stands under, and that no other such one is longer than.
pub record IsLongest (db : Objects) (o k : List ℕ) : Type 0 where
  pub known : In k (map (λ r. r.oid) db)
  pub under : is_under o k ≡ true
  pub longest :
      (j : List ℕ) → In j (map (λ r. r.oid) db) → is_under o j ≡ true → length j ≤ length k

pub base_of-IsLongest : (db : Objects) (o k : List ℕ) → base_of db o ≡ some k → IsLongest db o k
unfolding base_of
base_of-IsLongest db o k e =
    let oids = map (λ r. r.oid) db in
    let (m, u) = find-some (is_under o) (sort_by longer_first oids) e in
    record {
      known = sort_by_In oids m;
      under = u;
      longest = λ j n h.
          find-longest (is_under o) (sort_by longer_first oids) k j (sort-Shortens oids) e
            (In-sort_by oids n) h;
    }
