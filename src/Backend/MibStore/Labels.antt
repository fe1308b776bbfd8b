-- ===== src/Backend/MibStore/Labels.antt =====
-- A label is given to a known OID and to an instance of the longest one above it, and to no other.
use argus_monitor.Prelude.{
  ℕ, ◌≡◌, ◌≢◌, ◌⊎◌, refl, inl, inr, subst, arith, String, none, some, List, [], ◌∷◌, ◌++◌, map,
  true, false, In, here, there, same_text, same_text_iff, code_points, Bool-cases, Option-cases,
}
use argus_monitor.Backend.Mib.{is_number}
use argus_monitor.Backend.MibStore.{
  Objects, exact, undotted, after, is_under, base_of, instance_label, label_under, label_of,
}
use argus_monitor.Backend.MibStore.Longest.{IsLongest, base_of-IsLongest}

-- What follows a prefix, and what it is that it follows.
after_lem : (k o rest : List ℕ) → after k o ≡ some rest → o ≡ k ++ rest
unfolding after
after_lem [] o rest e = ground arith
after_lem (d ∷ k) [] rest e = absurd (ground arith)
after_lem (d ∷ k) (c ∷ o) rest e = ground (arith, after_lem k o rest)

after-dot : (k o rest : List ℕ) → after (k ++ 46 ∷ []) o ≡ some rest → after k o ≡ some (46 ∷ rest)
unfolding after
after-dot [] [] rest e = absurd (ground arith)
after-dot [] (c ∷ o) rest e = ground arith
after-dot (d ∷ k) [] rest e = absurd (ground arith)
after-dot (d ∷ k) (c ∷ o) rest e = ground (arith, after-dot k o rest)

exact-In : (db : Objects) (k : List ℕ) → In k (map (λ r. r.oid) db) → exact db k ≢ none
exact-In [] k m = elim m [ ]
exact-In (r ∷ db) k (here e) = ground (arith, same_text_iff r.oid k)
exact-In (r ∷ db) k (there m) = ground (arith, exact-In db k m)

-- The label of an instance: the name alone for the scalar instance, or with the index of a row.
abbrev pub IsInstance : List ℕ → List ℕ → List ℕ → Type 0
IsInstance name rest label =
    ((label ≡ name) × ((rest ≡ []) ⊎ (rest ≡ 48 ∷ [])))
    ⊎ ((label ≡ name ++ 32 ∷ 35 ∷ rest) × (is_number rest ≡ true))

pub data Labels (db : Objects) (o label : List ℕ) : Type 0 where
  known_oid :
      (name : String) → exact db o ≡ some name → label ≡ code_points name → Labels db o label
  an_instance :
      (k rest : List ℕ) (name : String)
      → exact db o ≡ none
      → IsLongest db o k
      → o ≡ k ++ 46 ∷ rest
      → exact db k ≡ some name
      → IsInstance (code_points name) rest label
      → Labels db o label

instance_label-IsInstance :
    (name : String) (rest label : List ℕ)
    → instance_label (some name) rest ≡ some label
    → IsInstance (code_points name) rest label
instance_label-IsInstance name [] label e = inl (ground arith, inl refl)
instance_label-IsInstance name (c ∷ rest) label e =
    elim (Bool-cases (same_text (c ∷ rest) (48 ∷ []))) [
      | inl zero_instance ↦
          inl (ground arith, inr ((same_text_iff (c ∷ rest) (48 ∷ [])).0 zero_instance))
      | inr index ↦ inr (ground arith, ground arith)
    ]

module _ (db : Objects) (o label : List ℕ) (unknown : exact db o ≡ none) where
  not_itself : (k : List ℕ) → IsLongest db o k → same_text o k ≡ false
  not_itself k l = elim (Bool-cases (same_text o k)) [
    | inl same ↦ absurd (
        exact-In db k l.known (subst (λ t. exact db t ≡ none) ((same_text_iff o k).0 same) unknown))
    | inr other ↦ other
  ]

  under-dot : (k : List ℕ) → IsLongest db o k → (rest : List ℕ) × (after k o ≡ some (46 ∷ rest))
  unfolding is_under
  under-dot k l = elim (Option-cases (after (k ++ 46 ∷ []) o)) [
    | inl nothing ↦ absurd (let u = l.under in let n = not_itself k l in ground arith)
    | inr (rest, e) ↦ (rest, after-dot k o rest e)
  ]

  labelled :
      (k : List ℕ) → IsLongest db o k → label_under db o (some k) ≡ some label → Labels db o label
  labelled k l e =
      let (rest, a) = under-dot k l in
      elim (Option-cases (exact db k)) [
        | inl missing ↦ absurd (exact-In db k l.known missing)
        | inr (name, n) ↦
            an_instance k rest name unknown l (after_lem k o (46 ∷ rest) a) n
              (instance_label-IsInstance name rest label (rw (n, a) at e))
      ]

-- A label that an OID is given is its own name, if it is known; and otherwise the OID follows the
-- longest known OID above it by a dot and nothing or "0", and the label is the name of that one, or by
-- a dot and one number, and the label is the name with that index.
pub label_of-Labels :
    (db : Objects) (oid label : List ℕ)
    → label_of db oid ≡ some label
    → Labels db (undotted oid) label
unfolding label_of
label_of-Labels db oid label e = elim (Option-cases (exact db (undotted oid))) [
  | inr (name, h) ↦ known_oid name h (ground arith)
  | inl unknown ↦ elim (Option-cases (base_of db (undotted oid))) [
    | inl nothing ↦ absurd (let f = (rw (unknown, label_of, nothing) at e) in ground arith)
    | inr (k, b) ↦
        labelled db (undotted oid) label unknown k (base_of-IsLongest db (undotted oid) k b)
          (ground arith)
  ]
]
