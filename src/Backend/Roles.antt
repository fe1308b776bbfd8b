-- ===== src/Backend/Roles.antt =====
-- The administration of roles, apps/backend/src/services/roles.ts.
pub mod Permissions
use Prim.Native.Nat.{Ordering}
use Prim.Native.String as Str
use argus_monitor.Prelude.{
  ℕ, String, Option, none, some, List, [], ◌∷◌, ◌++◌, map, Bool, true, false, ◌&&◌, not, ◌==◌, find,
  filter, flat_map, update_where, includes, dedupe, is_null, sort_by, if◌then◌else◌,
}
use argus_monitor.Core.Protection.{Guarded, ok, assert_mutable, ◌>>=◌, ◌>>◌}
use argus_monitor.Backend.Schema.{RoleRow, GroupRow, GroupRoleRow, RolePermissionRow, PermissionRow}
use argus_monitor.Backend.Subject.{Directory}

pub record Admin : Type 0 where
  pub directory : Directory
  pub roles : List RoleRow
  pub groups : List GroupRow

-- The order of text, by code points.
abbrev pub text_leb : String → String → Bool
text_leb a b = elim (Str.compare a b) [ Ordering.gt ↦ false | _ ↦ true ]

pub record NamedInput : Type 0 where
  pub name : String
  pub description : Option String

-- A field that is `none` is undefined.
pub record NamedPatch : Type 0 where
  pub name : Option String
  pub description : Option String

abbrev pub value_or {ℓ} : {A : Type ℓ} → Option A → A → A
value_or none old = old
value_or (some new) old = new

abbrev pub set_directory : Admin → Directory → Admin
set_directory db dir = record db { directory = dir }

pub record ListedRole : Type 0 where
  pub role : RoleRow
  pub permissions : List String

abbrev pub has_permission_id : String → PermissionRow → Bool
has_permission_id id p = p.id == id

-- The key of a permission id, if there is one.
abbrev key_list : Option PermissionRow → List String
key_list none = []
key_list (some p) = p.key ∷ []

unfoldable pub list_roles : Admin → List ListedRole
list_roles db =
    map
      (λ role. record {
        role = role;
        permissions =
            flat_map
              (λ rp. key_list (find (has_permission_id rp.permission_id) db.directory.permissions))
              (filter (λ rp. rp.role_id == role.id) db.directory.role_permissions);
      })
      db.roles

unfoldable pub get_role : Admin → String → Option RoleRow
get_role db id = find (λ r. r.id == id) db.roles

-- The join of the role's permissions, sorted.
unfoldable pub get_role_permission_keys : Admin → String → List String
get_role_permission_keys db role_id = sort_by text_leb (
    flat_map
      (λ rp.
        map (λ p. p.key) (filter (has_permission_id rp.permission_id) db.directory.permissions))
      (filter (λ rp. rp.role_id == role_id) db.directory.role_permissions))

-- The ids of the known keys.
abbrev pub resolved_ids : Admin → List String → List String
resolved_ids db keys = map (λ p. p.id) (filter (λ p. includes keys p.key) db.directory.permissions)

unfoldable pub set_role_permissions : Admin → String → List String → Admin
set_role_permissions db role_id keys = set_directory db (record db.directory {
  role_permissions =
      filter (λ rp. not (rp.role_id == role_id)) db.directory.role_permissions
      ++ map (λ id. record { role_id = role_id; permission_id = id }) (resolved_ids db keys);
})

abbrev permissions_if : Admin → String → List String → Admin
permissions_if db id [] = db
permissions_if db id (k ∷ ks) = set_role_permissions db id (k ∷ ks)

unfoldable pub create_role : Admin → NamedInput → List String → (id : String) → ℕ → Admin
create_role db input keys id now =
    permissions_if
      (record db {
        roles =
            db.roles
            ++ record {
              id = id;
              name = input.name;
              description = value_or input.description "";
              is_system = false;
              updated_at = now;
            }
              ∷ [];
      })
      id keys

abbrev role_guard : RoleRow → Guarded (Unit {0})
role_guard r = assert_mutable (record { is_system = some r.is_system; is_owner = none }) r.name

abbrev update_role_found : Admin → String → NamedPatch → ℕ → Option RoleRow → Guarded (Admin × Bool)
update_role_found db id patch now none = ok (db, false)
update_role_found db id patch now (some existing) =
    role_guard existing
    >> ok (
      record db {
        roles =
            update_where (λ r. r.id == id)
              (λ r. record r {
                name = value_or patch.name r.name;
                description = value_or patch.description r.description;
                updated_at = now;
              })
              db.roles;
      },
      true,
    )

unfoldable pub update_role : Admin → String → NamedPatch → ℕ → Guarded (Admin × Bool)
update_role db id patch now = update_role_found db id patch now (find (λ r. r.id == id) db.roles)

-- The rows that refer to the role go with it.
abbrev without_role : Admin → String → Admin
without_role db id = record db {
  roles = filter (λ r. not (r.id == id)) db.roles;
  directory = record db.directory {
    role_permissions = filter (λ rp. not (rp.role_id == id)) db.directory.role_permissions;
    group_roles = filter (λ gr. not (gr.role_id == id)) db.directory.group_roles;
  };
}

abbrev delete_role_found : Admin → String → Option RoleRow → Guarded (Admin × Bool)
delete_role_found db id none = ok (db, false)
delete_role_found db id (some existing) = role_guard existing >> ok (without_role db id, true)

unfoldable pub delete_role : Admin → String → Guarded (Admin × Bool)
delete_role db id = delete_role_found db id (find (λ r. r.id == id) db.roles)
