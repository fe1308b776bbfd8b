-- ===== src/Backend/Wallboards.antt =====
-- Wallboard layouts, apps/backend/src/services/wallboards.ts. The JSON of a layout and of a panel
-- configuration is its text; the messages of the errors are not modelled.
pub mod Default
use argus_monitor.Prelude.{
  ℕ, String, Option, none, some, List, [], ◌∷◌, ◌++◌, map, Bool, true, false, not, ◌==◌, find,
  filter, update_where, includes, min, if◌then◌else◌,
}
use argus_monitor.Prelude.Int.{ℤ, pos_part}
use argus_monitor.Core.Protection.{Guarded, ok, protected_entity, assert_mutable, ◌>>=◌, ◌>>◌}
use argus_monitor.Backend.Schema.{WallLayoutRow}

abbrev pub Layouts : Type 0
Layouts = List WallLayoutRow

abbrev pub wall_templates : List String
wall_templates = "flex" ∷ "cols2" ∷ "cols3" ∷ "rows2" ∷ "single" ∷ []

-- An unknown template is shown as the default one.
unfoldable pub to_dto : WallLayoutRow → WallLayoutRow
to_dto r = record r { template = if includes wall_templates r.template then r.template else "flex" }

abbrev pub opt_dto : Option WallLayoutRow → Option WallLayoutRow
opt_dto none = none
opt_dto (some r) = some (to_dto r)

abbrev pub layout_by : Layouts → String → Option WallLayoutRow
layout_by db id = find (λ r. r.id == id) db

unfoldable pub list_layouts : Layouts → List WallLayoutRow
list_layouts db = map to_dto db

unfoldable pub get_layout : Layouts → String → Option WallLayoutRow
get_layout db id = opt_dto (layout_by db id)

abbrev pub update_layout_row : Layouts → String → (WallLayoutRow → WallLayoutRow) → Layouts
update_layout_row db id f = update_where (λ r. r.id == id) f db

abbrev pub value_or {ℓ} : {A : Type ℓ} → Option A → A → A
value_or none old = old
value_or (some new) old = new

pub record CreateLayoutInput : Type 0 where
  pub name : String
  pub description : Option String
  pub layout : Option String

abbrev fresh_layout : String → ℕ → String → String → String → WallLayoutRow
fresh_layout id now name description layout = record {
  id = id;
  name = name;
  description = description;
  is_default = false;
  is_system = false;
  layout = layout;
  rotate_sec = 10;
  template = "flex";
  panel_config = "{}";
  created_at = now;
  updated_at = now;
}

unfoldable pub create_layout : Layouts → CreateLayoutInput → (id : String) → ℕ → Layouts
create_layout db input id now =
    db
    ++ fresh_layout id now input.name (value_or input.description "") (value_or input.layout "{}")
      ∷ []

-- A field that is `none` is undefined.
pub record UpdateLayoutInput : Type 0 where
  pub name : Option String
  pub description : Option String
  pub layout : Option String

-- The guard reads the row's `isSystem`; the table has no owner column.
abbrev pub guard : WallLayoutRow → Guarded (Unit {0})
guard r = assert_mutable (record { is_system = some r.is_system; is_owner = none }) r.name

abbrev update_found :
    Layouts → String → UpdateLayoutInput → ℕ → Option WallLayoutRow → Guarded (Layouts × Bool)
update_found db id patch now none = ok (db, false)
update_found db id patch now (some existing) =
    guard existing
    >> ok (
      update_layout_row db id (λ r. record r {
        name = value_or patch.name r.name;
        description = value_or patch.description r.description;
        layout = value_or patch.layout r.layout;
        updated_at = now;
      }),
      true,
    )

unfoldable pub update_layout : Layouts → String → UpdateLayoutInput → ℕ → Guarded (Layouts × Bool)
update_layout db id patch now = update_found db id patch now (layout_by db id)

-- `sec` is the floor of the given number of seconds.
unfoldable pub set_rotate_sec : Layouts → String → ℤ → ℕ → Layouts
set_rotate_sec db id sec now =
    update_layout_row db id
      (λ r. record r { rotate_sec = min 3600 (pos_part sec); updated_at = now })

unfoldable pub set_template : Layouts → String → String → ℕ → Layouts
set_template db id template now =
    update_layout_row db id (λ r. record r { template = template; updated_at = now })

unfoldable pub set_panel_config : Layouts → String → String → ℕ → Layouts
set_panel_config db id config now =
    update_layout_row db id (λ r. record r { panel_config = config; updated_at = now })

-- Every default is cleared, then the one is set.
abbrev pub make_default : Layouts → String → ℕ → Layouts
make_default db id now =
    update_layout_row (update_where (λ r. r.is_default) (λ r. record r { is_default = false }) db)
      id (λ r. record r { is_default = true; updated_at = now })

abbrev pub set_default_found : Layouts → String → ℕ → Option WallLayoutRow → Layouts × Bool
set_default_found db id now none = (db, false)
set_default_found db id now (some row) = (make_default db id now, true)

unfoldable pub set_default_layout : Layouts → String → ℕ → Layouts × Bool
set_default_layout db id now = set_default_found db id now (layout_by db id)

abbrev pub delete_found : Layouts → String → Option WallLayoutRow → Guarded (Layouts × Bool)
delete_found db id none = ok (db, false)
delete_found db id (some existing) =
    guard existing
    >> (if existing.is_default
        then protected_entity existing.name
        else ok (filter (λ r. not (r.id == id)) db, true))

unfoldable pub delete_layout : Layouts → String → Guarded (Layouts × Bool)
delete_layout db id = delete_found db id (layout_by db id)

abbrev clone_found : Layouts → String → String → ℕ → Option WallLayoutRow → Layouts × Bool
clone_found db name id now none = (db, false)
clone_found db name id now (some src) =
    (db ++ fresh_layout id now name src.description src.layout ∷ [], true)

unfoldable pub clone_layout :
    Layouts → String → (name : String) → (id : String) → ℕ → Layouts × Bool
clone_layout db src_id name id now = clone_found db name id now (layout_by db src_id)
