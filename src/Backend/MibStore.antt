-- ===== src/Backend/MibStore.antt =====
-- The table of MIB objects, apps/backend/src/services/mib.ts. The order that localeCompare gives to the
-- names of the modules is a parameter. A column that the update of a conflict is set to, as in
-- `name: mibObjects.name`, is the one of the row that is there. The instant of creation is not modelled.
pub mod Import
pub mod Longest
pub mod Labels
use argus_monitor.Prelude.{
  is_empty, ℕ, suc, String, Option, none, some, List, [], ◌∷◌, ◌++◌, map, Bool, true, false, ◌||◌,
  not, ◌==◌, any, all, find, filter, length, leb, nat_eq, is_digit, is_null, sort_by, code_points,
  same_text, if◌then◌else◌,
}
use argus_monitor.Backend.Mib.{Raw, MibObject, Parsed, is_number, parse_mib}

pub record MibObjectRow : Type 0 where
  pub oid : List ℕ
  pub name : String
  pub unit : Option String
  pub description : Option String
  pub mib : String
  pub updated_at : ℕ

abbrev pub Objects : Type 0
Objects = List MibObjectRow

abbrev pub row_of : String → ℕ → MibObject → MibObjectRow
row_of mib_name now o = record {
  oid = o.oid;
  name = o.name;
  unit = o.unit;
  description = o.description;
  mib = mib_name;
  updated_at = now;
}

-- INSERT … ON CONFLICT (oid) DO UPDATE: a row that is there is set to its own columns.
unfoldable pub upsert_row : Objects → MibObjectRow → Objects
upsert_row db row = if any (λ r. same_text r.oid row.oid) db then db else db ++ row ∷ []

-- The rows are inserted in chunks of 500, one after the other.
unfoldable pub upsert_rows : Objects → List MibObjectRow → Objects
unfolding upsert_row
upsert_rows db [] = db
upsert_rows db (row ∷ rows) = upsert_rows (upsert_row db row) rows

abbrev pub of_others : String → Objects → Objects
of_others mib_name db = filter (λ r. not (r.mib == mib_name)) db

pub record Imported : Type 0 where
  pub imported : ℕ
  pub parsed : ℕ

unfoldable pub store : Objects → String → Parsed → ℕ → Objects × Imported
unfolding upsert_rows
store db mib_name p now =
    if is_empty p.objects then (db, record { imported = 0; parsed = p.parsed }) else (
      upsert_rows (of_others mib_name db) (map (row_of mib_name now) p.objects),
      record { imported = length p.objects; parsed = p.parsed },
    )

abbrev pub stored : Objects → String → ℕ → Option Parsed → Option (Objects × Imported)
stored db mib_name now none = none
stored db mib_name now (some p) = some (store db mib_name p now)

unfoldable pub import_mib : Objects → String → List Raw → ℕ → Option (Objects × Imported)
unfolding store
import_mib db mib_name raws now = stored db mib_name now (parse_mib raws)

unfoldable pub delete_mib : Objects → String → Objects
delete_mib db mib_name = of_others mib_name db

-- `counts.set(mib, (counts.get(mib) ?? 0) + 1)`.
unfoldable pub count_one : String → List (String × ℕ) → List (String × ℕ)
count_one mib [] = (mib, 1) ∷ []
count_one mib ((key, n) ∷ counts) =
    if key == mib then (key, suc n) ∷ counts else (key, n) ∷ count_one mib counts

unfoldable pub count_all : Objects → List (String × ℕ) → List (String × ℕ)
unfolding count_one
count_all [] counts = counts
count_all (r ∷ rows) counts = count_all rows (count_one r.mib counts)

unfoldable pub list_mibs : (String → String → Bool) → Objects → List (String × ℕ)
unfolding count_all
list_mibs may_precede db = sort_by (λ a b. may_precede a.0 b.0) (count_all db [])

-- `exact.get(oid)`: of two rows with the OID the map has the later one.
abbrev pub exact : Objects → List ℕ → Option String
exact [] oid = none
exact (r ∷ rows) oid = elim (exact rows oid) [
  | some name ↦ some name
  | none ↦ if same_text r.oid oid then some r.name else none
]

-- `replace(/^\./, "")`.
abbrev pub undotted : List ℕ → List ℕ
undotted [] = []
undotted (c ∷ s) = if nat_eq c 46 then s else c ∷ s

-- What follows a prefix, if the text has it.
unfoldable pub after : List ℕ → List ℕ → Option (List ℕ)
after [] s = some s
after (d ∷ t) [] = none
after (d ∷ t) (c ∷ s) = if nat_eq c d then after t s else none

-- `o === k || o.startsWith(k + ".")`.
unfoldable pub is_under : List ℕ → List ℕ → Bool
unfolding after
is_under o k = same_text o k || not (is_null (after (k ++ 46 ∷ []) o))

-- `b.length - a.length`, in the stable sort of the language.
abbrev pub longer_first : List ℕ → List ℕ → Bool
longer_first a b = leb (length b) (length a)

unfoldable pub base_of : Objects → List ℕ → Option (List ℕ)
unfolding is_under
base_of db o = find (is_under o) (sort_by longer_first (map (λ r. r.oid) db))

-- `o.slice(base.length).replace(/^\./, "")`, of a text that begins with the base.
abbrev pub rest_of : List ℕ → Option (List ℕ) → List ℕ
rest_of o none = o
rest_of o (some rest) = undotted rest

-- "name", or "name #index".
abbrev pub instance_label : Option String → List ℕ → Option (List ℕ)
instance_label none rest = none
instance_label (some name) rest =
    if is_empty rest || same_text rest (48 ∷ [])
    then some (code_points name)
    else if is_number rest
    then some (code_points name ++ 32 ∷ 35 ∷ rest)
    else none

abbrev pub label_under : Objects → List ℕ → Option (List ℕ) → Option (List ℕ)
label_under db o none = none
label_under db o (some k) = instance_label (exact db k) (rest_of o (after k o))

unfoldable pub label_of : Objects → List ℕ → Option (List ℕ)
unfolding base_of
label_of db oid =
    let o = undotted oid in
    elim (exact db o) [
      | some name ↦ some (code_points name)
      | none ↦ label_under db o (base_of db o)
    ]

-- `out.set(oid, label)`.
unfoldable pub set_label : List ℕ → List ℕ → List (List ℕ × List ℕ) → List (List ℕ × List ℕ)
set_label oid label [] = (oid, label) ∷ []
set_label oid label ((key, old) ∷ out) =
    if same_text key oid then (key, label) ∷ out else (key, old) ∷ set_label oid label out

unfoldable pub name_each : Objects → List (List ℕ) → List (List ℕ × List ℕ) → List (List ℕ × List ℕ)
unfolding label_of set_label
name_each db [] out = out
name_each db (oid ∷ oids) out = elim (label_of db oid) [
  | none ↦ name_each db oids out
  | some label ↦ name_each db oids (set_label oid label out)
]

unfoldable pub resolve_oid_names : Objects → List (List ℕ) → List (List ℕ × List ℕ)
unfolding name_each
resolve_oid_names db oids = name_each db oids []
