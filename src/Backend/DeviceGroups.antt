-- ===== src/Backend/DeviceGroups.antt =====
-- Groups of wall displays, apps/backend/src/services/devices.ts.
use argus_monitor.Prelude.{
  ℕ, String, Option, none, some, List, [], ◌∷◌, ◌++◌, map, Bool, false, not, ◌==◌, find, filter,
  update_where, is_null,
}
use argus_monitor.Backend.Auth.{Store}
use argus_monitor.Backend.Devices.{WallDeviceGroupDto, group_to_dto}

unfoldable pub list_groups : Store → List WallDeviceGroupDto
list_groups db = map group_to_dto db.wall_device_groups

unfoldable pub create_group : Store → String → String → ℕ → Store
create_group db name id now = record db {
  wall_device_groups =
      db.wall_device_groups
      ++ record { id = id; name = name; layout_id = none; created_at = now; updated_at = now } ∷ [];
}

-- A patch of a group: a field that is `none` is undefined, and keeps its column.
pub record GroupPatch : Type 0 where
  pub name : Option String
  pub layout_id : Option (Option String)

abbrev set_to {ℓ} : {A : Type ℓ} → Option A → A → A
set_to none old = old
set_to (some new) old = new

unfoldable pub update_group : Store → String → GroupPatch → ℕ → Store
update_group db id patch now = record db {
  wall_device_groups =
      update_where (λ g. g.id == id)
        (λ g. record g {
          name = set_to patch.name g.name;
          layout_id = set_to patch.layout_id g.layout_id;
          updated_at = now;
        })
        db.wall_device_groups;
}

abbrev in_group : String → Option String → Bool
in_group id none = false
in_group id (some group_id) = group_id == id

-- The members of the group are detached first.
unfoldable pub delete_group : Store → String → Store × Bool
delete_group db id = (
  record db {
    wall_devices =
        update_where (λ d. in_group id d.group_id) (λ d. record d { group_id = none })
          db.wall_devices;
    wall_device_groups = filter (λ g. not (g.id == id)) db.wall_device_groups;
  },
  not (is_null (find (λ g. g.id == id) db.wall_device_groups)),
)
