-- ===== src/Backend/Subject.antt =====
-- The security context of a caller, apps/backend/src/services/subject.ts.
pub mod Grants
use Prim.Native.String as Str
use text.Mathlib.Text.{starts_with}
use argus_monitor.Prelude.{
  String, Option, none, some, List, [], ◌∷◌, map, Bool, true, false, ◌==◌, find, filter, flat_map,
  dedupe, if◌then◌else◌,
}
use argus_monitor.Core.Authorize.{Attribute, AuthSubject}
use argus_monitor.Backend.Schema.{
  UserRow, UserGroupRow, GroupRoleRow, RolePermissionRow, PermissionRow, UserAttributeRow,
}

-- The tables that a subject is resolved from.
pub record Directory : Type 0 where
  pub users : List UserRow
  pub user_groups : List UserGroupRow
  pub group_roles : List GroupRoleRow
  pub role_permissions : List RolePermissionRow
  pub permissions : List PermissionRow
  pub user_attributes : List UserAttributeRow

abbrev pub static_admin_subject : AuthSubject
static_admin_subject = record {
  user_id = "static-admin";
  is_owner = true;
  permissions = [];
  attributes = [];
}

abbrev pub device_read_perms : List String
device_read_perms =
    "dashboard:read" ∷ "wallboards:read" ∷ "agents:read" ∷ "monitors:read" ∷ "notifications:read"
    ∷ "ticker:read" ∷ []

unfoldable pub is_device_subject : AuthSubject → Bool
is_device_subject subject = starts_with subject.user_id "device:"

unfoldable pub device_subject : String → AuthSubject
device_subject device_id = record {
  user_id = Str.◌++◌ "device:" device_id;
  is_owner = false;
  permissions = device_read_perms;
  attributes = [];
}

-- The four joins of the permission query: each row of a table is followed to the rows that it names.
unfoldable pub keys_of_permission : List PermissionRow → String → List String
keys_of_permission rows permission_id = map (λ p. p.key) (filter (λ p. p.id == permission_id) rows)

unfoldable pub keys_of_role : Directory → String → List String
unfolding keys_of_permission
keys_of_role dir role_id =
    flat_map (λ rp. keys_of_permission dir.permissions rp.permission_id)
      (filter (λ rp. rp.role_id == role_id) dir.role_permissions)

unfoldable pub keys_of_group : Directory → String → List String
unfolding keys_of_role
keys_of_group dir group_id =
    flat_map (λ gr. keys_of_role dir gr.role_id)
      (filter (λ gr. gr.group_id == group_id) dir.group_roles)

unfoldable pub keys_of_user : Directory → String → List String
unfolding keys_of_group
keys_of_user dir user_id =
    flat_map (λ ug. keys_of_group dir ug.group_id)
      (filter (λ ug. ug.user_id == user_id) dir.user_groups)

unfoldable pub attributes_of : Directory → String → List Attribute
attributes_of dir user_id =
    map (λ a. record { key = a.key; value = a.value })
      (filter (λ a. a.user_id == user_id) dir.user_attributes)

abbrev subject_of : Directory → String → UserRow → AuthSubject
subject_of dir user_id user = record {
  user_id = user.id;
  is_owner = user.is_owner;
  permissions = dedupe (keys_of_user dir user_id);
  attributes = attributes_of dir user_id;
}

abbrev unless_disabled : Directory → String → Option UserRow → Option AuthSubject
unless_disabled dir user_id none = none
unless_disabled dir user_id (some user) =
    if user.disabled then none else some (subject_of dir user_id user)

unfoldable pub resolve_subject : Directory → String → Option AuthSubject
unfolding keys_of_user attributes_of
resolve_subject dir user_id = unless_disabled dir user_id (find (λ u. u.id == user_id) dir.users)
