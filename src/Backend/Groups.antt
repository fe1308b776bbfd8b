-- ===== src/Backend/Groups.antt =====
-- The administration of groups, apps/backend/src/services/groups.ts.
use argus_monitor.Prelude.{
  ℕ, String, Option, none, some, List, [], ◌∷◌, ◌++◌, map, Bool, true, false, not, ◌==◌, find,
  filter, update_where, dedupe,
}
use argus_monitor.Core.Protection.{Guarded, ok, assert_mutable, ◌>>◌}
use argus_monitor.Backend.Schema.{GroupRow}
use argus_monitor.Backend.Roles.{Admin, NamedInput, NamedPatch, value_or, set_directory}

pub record ListedGroup : Type 0 where
  pub group : GroupRow
  pub role_ids : List String

unfoldable pub list_groups : Admin → List ListedGroup
list_groups db =
    map
      (λ group. record {
        group = group;
        role_ids =
            map (λ gr. gr.role_id)
              (filter (λ gr. gr.group_id == group.id) db.directory.group_roles);
      })
      db.groups

-- The group's rows are deleted, and one is inserted for each role; a conflict does nothing.
unfoldable pub set_group_roles : Admin → String → List String → Admin
set_group_roles db group_id role_ids = set_directory db (record db.directory {
  group_roles =
      filter (λ gr. not (gr.group_id == group_id)) db.directory.group_roles
      ++ map (λ r. record { group_id = group_id; role_id = r }) (dedupe role_ids);
})

abbrev roles_if : Admin → String → List String → Admin
roles_if db id [] = db
roles_if db id (r ∷ rs) = set_group_roles db id (r ∷ rs)

unfoldable pub create_group : Admin → NamedInput → List String → (id : String) → ℕ → Admin
create_group db input role_ids id now =
    roles_if
      (record db {
        groups =
            db.groups
            ++ record {
              id = id;
              name = input.name;
              description = value_or input.description "";
              is_system = false;
              updated_at = now;
            }
              ∷ [];
      })
      id role_ids

abbrev group_guard : GroupRow → Guarded (Unit {0})
group_guard g = assert_mutable (record { is_system = some g.is_system; is_owner = none }) g.name

abbrev update_group_found :
    Admin → String → NamedPatch → ℕ → Option GroupRow → Guarded (Admin × Bool)
update_group_found db id patch now none = ok (db, false)
update_group_found db id patch now (some existing) =
    group_guard existing
    >> ok (
      record db {
        groups =
            update_where (λ g. g.id == id)
              (λ g. record g {
                name = value_or patch.name g.name;
                description = value_or patch.description g.description;
                updated_at = now;
              })
              db.groups;
      },
      true,
    )

unfoldable pub update_group : Admin → String → NamedPatch → ℕ → Guarded (Admin × Bool)
update_group db id patch now = update_group_found db id patch now (find (λ g. g.id == id) db.groups)

abbrev without_group : Admin → String → Admin
without_group db id = record db {
  groups = filter (λ g. not (g.id == id)) db.groups;
  directory = record db.directory {
    group_roles = filter (λ gr. not (gr.group_id == id)) db.directory.group_roles;
    user_groups = filter (λ ug. not (ug.group_id == id)) db.directory.user_groups;
  };
}

abbrev delete_group_found : Admin → String → Option GroupRow → Guarded (Admin × Bool)
delete_group_found db id none = ok (db, false)
delete_group_found db id (some existing) = group_guard existing >> ok (without_group db id, true)

unfoldable pub delete_group : Admin → String → Guarded (Admin × Bool)
delete_group db id = delete_group_found db id (find (λ g. g.id == id) db.groups)
