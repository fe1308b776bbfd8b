-- ===== src/Backend/MibStore/Import.antt =====
-- What the table holds of an OID after an import.
use argus_monitor.Prelude.{
  length, is_empty, ℕ, ◌≡◌, ◌∙◌, refl, inl, inr, arith, String, Option, none, some, List, [], ◌∷◌,
  ◌++◌, map, Bool, true, false, any, find, find-any, same_text, same_text_iff, is_null, Bool-cases,
  not,
}
use argus_monitor.Backend.Mib.{MibObject, Parsed}
use argus_monitor.Backend.MibStore.{
  MibObjectRow, Objects, row_of, upsert_row, upsert_rows, of_others, store,
}

-- The row with an OID.
abbrev pub with_oid : List ℕ → Objects → Option MibObjectRow
with_oid oid db = find (λ r. same_text r.oid oid) db

abbrev pub or_else {ℓ} : {A : Type ℓ} → Option A → Option A → Option A
or_else none other = other
or_else (some a) other = some a

find-append {ℓ} :
    {A : Type ℓ} (p : A → Bool) (xs ys : List A)
    → find p (xs ++ ys) ≡ or_else (find p xs) (find p ys)
find-append p [] ys = refl
find-append p (x ∷ xs) ys = ground (arith, find-append p xs ys)

-- A row is added only if none has its OID.
with_oid-upsert_row :
    (db : Objects) (row : MibObjectRow) (oid : List ℕ)
    → with_oid oid (upsert_row db row) ≡ or_else (with_oid oid db) (with_oid oid (row ∷ []))
unfolding upsert_row
with_oid-upsert_row db row oid = elim (Bool-cases (any (λ r. same_text r.oid row.oid) db)) [
  | inl old ↦ rw old (kept old)
  | inr new ↦ rw new (find-append (λ (r : MibObjectRow). same_text r.oid oid) db (row ∷ []))
]
  where
    kept :
        any (λ r. same_text r.oid row.oid) db ≡ true
        → with_oid oid db ≡ or_else (with_oid oid db) (with_oid oid (row ∷ []))
    kept old = elim (Bool-cases (same_text row.oid oid)) [
      | inl same ↦
          let e = (same_text_iff row.oid oid).0 same in
          let found = find-any (λ (r : MibObjectRow). same_text r.oid row.oid) db ∙ old in
          let found' : not (is_null (with_oid oid db)) ≡ true = (rw e at found) in ground arith
      | inr other ↦ ground arith
    ]

with_oid-upsert_rows :
    (rows : List MibObjectRow) (db : Objects) (oid : List ℕ)
    → with_oid oid (upsert_rows db rows) ≡ or_else (with_oid oid db) (with_oid oid rows)
unfolding upsert_rows
with_oid-upsert_rows [] db oid = ground arith
with_oid-upsert_rows (row ∷ rows) db oid =
    ground
      (arith, with_oid-upsert_rows rows (upsert_row db row) oid, with_oid-upsert_row db row oid)

-- The row that an import makes of the object with an OID.
abbrev pub imported_row : String → ℕ → List MibObject → List ℕ → Option MibObjectRow
imported_row mib_name now objects oid = with_oid oid (map (row_of mib_name now) objects)

-- An import that found objects counts all of them as imported; but it leaves every OID that a row of
-- another module has with that row as it was, and any other OID has the row of the object that the
-- module gives it, and no row if there is none.
pub store-with_oid :
    (db : Objects) (mib_name : String) (p : Parsed) (now : ℕ) (oid : List ℕ)
    → is_empty p.objects ≡ false
    → ((store db mib_name p now).1.imported ≡ length p.objects)
      × (with_oid oid (store db mib_name p now).0
          ≡ or_else
              (with_oid oid (of_others mib_name db))
              (imported_row mib_name now p.objects oid))
unfolding store
store-with_oid db mib_name p now oid h =
    rw h
      (refl, with_oid-upsert_rows (map (row_of mib_name now) p.objects) (of_others mib_name db) oid)
