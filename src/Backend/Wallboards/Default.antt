-- ===== src/Backend/Wallboards/Default.antt =====
-- There is one default wallboard.
use argus_monitor.Prelude.{
  ℕ, suc, some_if, ◌≡◌, refl, sym, ap, ◌∙◌, arith, String, Option, none, some, List, [], ◌∷◌, Bool,
  true, false, not, ◌==◌, Bool-cases, inl, inr, ◌≤◌, filter, length, if◌then◌else◌,
}
use argus_monitor.Core.Protection.{Guarded, ok, protected_entity, assert_mutable}
use argus_monitor.Backend.Schema.{WallLayoutRow}
use argus_monitor.Backend.Wallboards.{
  Layouts, layout_by, make_default, set_default_found, set_default_layout, delete_found,
  delete_layout,
}

-- The ids of the default boards.
abbrev pub default_ids : Layouts → List String
default_ids [] = []
default_ids (r ∷ db) = let rest = default_ids db in if r.is_default then r.id ∷ rest else rest

-- The ids of the boards with an id.
abbrev pub ids_of : String → Layouts → List String
ids_of id [] = []
ids_of id (r ∷ db) = let rest = ids_of id db in if r.id == id then r.id ∷ rest else rest

default_ids-make :
    (db : Layouts) (id : String) (now : ℕ) → default_ids (make_default db id now) ≡ ids_of id db
default_ids-make [] id now = refl
default_ids-make (r ∷ db) id now = ground (arith, default_ids-make db id now)

set_default_found_lem :
    (db : Layouts) (id : String) (now : ℕ) (o : Option WallLayoutRow)
    → default_ids (set_default_found db id now o).0
      ≡ (if (set_default_found db id now o).1 then ids_of id db else default_ids db)
set_default_found_lem db id now none = refl
set_default_found_lem db id now (some r) = default_ids-make db id now

-- After a request to make a board the default, the default boards are the boards with that id, that
-- is, that board alone; and when there is no such board, they are what they were.
pub set_default_layout-default_ids :
    (db : Layouts) (id : String) (now : ℕ)
    → default_ids (set_default_layout db id now).0
      ≡ (if (set_default_layout db id now).1 then ids_of id db else default_ids db)
unfolding set_default_layout
set_default_layout-default_ids db id now = set_default_found_lem db id now (layout_by db id)

filter-absent :
    (db : Layouts) (id : String) → ids_of id db ≡ [] → filter (λ r. not (r.id == id)) db ≡ db
filter-absent [] id h = refl
filter-absent (r ∷ db) id h = elim (Bool-cases (r.id == id)) [
  | inl hit ↦ let some_id = rw hit at h in ground arith
  | inr miss ↦ rw miss (ap (λ x. r ∷ x) (filter-absent db id (rw miss at h)))
]

length_none : (xs : List String) → suc (length xs) ≤ 1 → xs ≡ []
length_none [] h = refl
length_none (x ∷ xs) h = absurd (omega arith)

default_ids-delete :
    (db : Layouts) (id : String) (existing : WallLayoutRow)
    → layout_by db id ≡ some existing
    → existing.is_default ≡ false
    → length (ids_of id db) ≤ 1
    → default_ids (filter (λ r. not (r.id == id)) db) ≡ default_ids db
default_ids-delete [] id existing found plain unique = refl
default_ids-delete (r ∷ db) id existing found plain unique = elim (Bool-cases (r.id == id)) [
  | inl hit ↦
      let same = (some_if true r existing (rw hit at found)).0 in
      rw (hit, ap (λ x. x.is_default) same ∙ plain)
        (ap default_ids (filter-absent db id (length_none (ids_of id db) (rw hit at unique))))
  | inr miss ↦ rw miss (
      ap (λ l. if r.is_default then r.id ∷ l else l)
        (default_ids-delete db id existing (rw miss at found) plain (rw miss at unique)))
]

rows_of : Layouts → Guarded (Layouts × Bool) → Layouts
rows_of db (ok (rows, removed)) = rows
rows_of db (protected_entity what) = db

delete_found_lem :
    (db : Layouts) (id : String) (o : Option WallLayoutRow)
    → layout_by db id ≡ o
    → length (ids_of id db) ≤ 1
    → default_ids (rows_of db (delete_found db id o)) ≡ default_ids db
unfolding rows_of assert_mutable
delete_found_lem db id none found unique = refl
delete_found_lem db id (some existing) found unique = elim (Bool-cases existing.is_system) [
  | inl system ↦ rw system refl
  | inr free ↦ elim (Bool-cases existing.is_default) [
    | inl chosen ↦ rw (free, chosen) refl
    | inr plain ↦ rw (free, plain) (default_ids-delete db id existing found plain unique)
  ]
]

-- A board that is removed was no default: the default boards are what they were, if ids are unique.
pub delete_layout-keeps_default :
    (db db' : Layouts) (id : String) (removed : Bool)
    → length (ids_of id db) ≤ 1
    → delete_layout db id ≡ ok (db', removed)
    → default_ids db' ≡ default_ids db
unfolding delete_layout rows_of
delete_layout-keeps_default db db' id removed unique h =
    ap (λ g. default_ids (rows_of db g)) (sym h)
    ∙ delete_found_lem db id (layout_by db id) refl unique
