-- ===== src/Backend/Devices.antt =====
-- Wall displays: pairing, tokens and groups, apps/backend/src/services/devices.ts. The random draws,
-- the id of an inserted row, the new token and the instant of a call are arguments.
pub mod Access
use argus_monitor.Prelude.{
  ℕ, ◌-◌, ◌*◌, String, Option, none, some, List, [], ◌∷◌, ◌++◌, map, Bool, false, ◌&&◌, not, ◌==◌,
  find, filter, update_where, is_null, ltb, if◌then◌else◌,
}
use argus_monitor.Backend.Schema.{WallDeviceRow, WallDeviceGroupRow}
use argus_monitor.Backend.Crypto.{Crypto}
use argus_monitor.Backend.Auth.{Store}

-- `r ?? s`.
abbrev pub or_else : Option String → Option String → Option String
or_else none other = other
or_else (some a) other = some a

abbrev pub or_instant : Option ℕ → Option ℕ → Option ℕ
or_instant none other = other
or_instant (some a) other = some a

-- A nullable column equals a text.
abbrev pub carries : String → Option String → Bool
carries s none = false
carries s (some t) = t == s

-- The first draw that no row carries; after the draws, the clock's last six digits.
unfoldable pub gen_pairing_code : Store → List String → String → String
gen_pairing_code db [] clock_digits = clock_digits
gen_pairing_code db (code ∷ draws) clock_digits =
    let next = gen_pairing_code db draws clock_digits in
    if is_null (find (λ d. carries code d.pairing_code) db.wall_devices) then code else next

abbrev pub device_session_ttl_default : ℕ
device_session_ttl_default = 2592000

-- The setting, when it is a number, and the default lifetime otherwise.
unfoldable pub session_ttl_sec : Option ℕ → ℕ
session_ttl_sec none = device_session_ttl_default
session_ttl_sec (some v) = if ltb 0 v then v else device_session_ttl_default

abbrev pub online_window_ms : ℕ
online_window_ms = 90000

pub record WallDeviceDto : Type 0 where
  pub id : String
  pub name : String
  pub status : String
  pub pairing_code : Option String
  pub layout_id : Option String
  pub group_id : Option String
  pub effective_layout_id : Option String
  pub online : Bool
  pub last_seen_at : Option ℕ
  pub approved_at : Option ℕ
  pub created_at : ℕ

abbrev pub seen_within : ℕ → Option ℕ → ℕ → Bool
seen_within window none now = false
seen_within window (some seen) now = ltb (now - seen) window

unfoldable pub to_dto : WallDeviceRow → Option String → ℕ → WallDeviceDto
to_dto r group_layout_id now = record {
  id = r.id;
  name = r.name;
  status = r.status;
  pairing_code = if r.status == "pending" then r.pairing_code else none;
  layout_id = r.layout_id;
  group_id = r.group_id;
  effective_layout_id = or_else r.layout_id group_layout_id;
  online = r.status == "approved" && seen_within online_window_ms r.last_seen_at now;
  last_seen_at = r.last_seen_at;
  approved_at = r.approved_at;
  created_at = r.created_at;
}

pub record WallDeviceGroupDto : Type 0 where
  pub id : String
  pub name : String
  pub layout_id : Option String
  pub created_at : ℕ

abbrev pub group_to_dto : WallDeviceGroupRow → WallDeviceGroupDto
group_to_dto r = record {
  id = r.id;
  name = r.name;
  layout_id = r.layout_id;
  created_at = r.created_at;
}

abbrev layout_of : Option WallDeviceGroupRow → Option String
layout_of none = none
layout_of (some g) = g.layout_id

-- The board of the group that a device is in.
abbrev pub group_layout : Store → Option String → Option String
group_layout db none = none
group_layout db (some group_id) = layout_of (find (λ g. g.id == group_id) db.wall_device_groups)

unfoldable pub hydrate : Store → WallDeviceRow → ℕ → WallDeviceDto
unfolding to_dto
hydrate db row now = to_dto row (group_layout db row.group_id) now

unfoldable pub list_devices : Store → ℕ → List WallDeviceDto
unfolding hydrate
list_devices db now = map (λ r. hydrate db r now) db.wall_devices

-- What an approved device renders: its name and the board that applies to it.
pub record DeviceBundle : Type 0 where
  pub name : String
  pub layout_id : Option String

abbrev bundle_of : Store → Option WallDeviceRow → Option DeviceBundle
bundle_of db none = none
bundle_of db (some row) =
    some
      (record { name = row.name; layout_id = or_else row.layout_id (group_layout db row.group_id) })

unfoldable pub get_device_bundle : Store → String → Option DeviceBundle
get_device_bundle db device_id = bundle_of db (find (λ d. d.id == device_id) db.wall_devices)

unfoldable pub create_device : Store → String → (id code : String) → ℕ → Store
create_device db name id code now = record db {
  wall_devices =
      db.wall_devices
      ++ record {
        id = id;
        name = name;
        status = "pending";
        pairing_code = some code;
        fingerprint = none;
        token_hash = none;
        layout_id = none;
        group_id = none;
        last_seen_at = none;
        approved_at = none;
        created_at = now;
        updated_at = now;
      }
        ∷ [];
}

-- UPDATE wall_devices SET … WHERE id = …
abbrev pub update_device : Store → String → (WallDeviceRow → WallDeviceRow) → Store
update_device db id f = record db {
  wall_devices = update_where (λ d. d.id == id) f db.wall_devices;
}

abbrev pub by_id : String → WallDeviceRow → Bool
by_id id d = d.id == id

unfoldable pub delete_device : Store → String → Store × Bool
delete_device db id = (
  record db { wall_devices = filter (λ d. not (by_id id d)) db.wall_devices },
  not (is_null (find (by_id id) db.wall_devices)),
)

unfoldable pub revoke_device : Store → String → Store
revoke_device db id = update_device db id (λ d. record d { status = "revoked"; token_hash = none })

unfoldable pub assign_layout : Store → String → Option String → ℕ → Store
assign_layout db id layout_id now =
    update_device db id (λ d. record d { layout_id = layout_id; updated_at = now })

unfoldable pub assign_group : Store → String → Option String → ℕ → Store
assign_group db id group_id now =
    update_device db id (λ d. record d { group_id = group_id; updated_at = now })

unfoldable pub touch_device : Store → String → ℕ → Store
touch_device db id now = update_device db id (λ d. record d { last_seen_at = some now })

pub record ClaimInput : Type 0 where
  pub code : String
  pub fingerprint : Option String
  pub name : Option String

pub record Claimed : Type 0 where
  pub device_id : String
  pub token : String

-- A fingerprint that is there and not empty.
abbrev given : Option String → Option String
given none = none
given (some f) = if f == "" then none else some f

abbrev name_or : Option String → String → String
name_or none name = name
name_or (some n) name = n

module _ (c : Crypto) where
  -- The placeholder is approved under the screen's fingerprint.
  abbrev claim_new : Store → ClaimInput → WallDeviceRow → String → ℕ → Store × Option Claimed
  claim_new db input pending token now = (
    update_device db pending.id (λ d. record d {
      status = "approved";
      approved_at = some now;
      last_seen_at = some now;
      token_hash = some (c.sha256 token);
      fingerprint = input.fingerprint;
    }),
    some (record { device_id = pending.id; token = token }),
  )

  -- The screen's former row is used again and the placeholder is dropped.
  abbrev reclaim :
      Store → ClaimInput → WallDeviceRow → WallDeviceRow → String → ℕ → Store × Option Claimed
  reclaim db input pending existing token now = (
    update_device
        (record db { wall_devices = filter (λ d. not (by_id pending.id d)) db.wall_devices })
        existing.id
        (λ d. record d {
          status = "approved";
          approved_at = some now;
          last_seen_at = some now;
          token_hash = some (c.sha256 token);
          name = name_or input.name existing.name;
        }),
    some (record { device_id = existing.id; token = token }),
  )

  abbrev claim_as :
      Store
      → ClaimInput
      → WallDeviceRow
      → Option WallDeviceRow
      → String
      → ℕ
      → Store × Option Claimed
  claim_as db input pending none token now = claim_new db input pending token now
  claim_as db input pending (some existing) token now =
      if not (existing.id == pending.id)
      then reclaim db input pending existing token now
      else claim_new db input pending token now

  abbrev former : Store → Option String → Option WallDeviceRow
  former db none = none
  former db (some f) = find (λ d. carries f d.fingerprint) db.wall_devices

  abbrev claim_pending :
      Store → ClaimInput → Option WallDeviceRow → String → ℕ → Store × Option Claimed
  claim_pending db input none token now = (db, none)
  claim_pending db input (some pending) token now =
      if not (pending.status == "pending")
      then (db, none)
      else claim_as db input pending (former db (given input.fingerprint)) token now

  unfoldable pub claim_device : Store → ClaimInput → String → ℕ → Store × Option Claimed
  claim_device db input token now =
      claim_pending db input (find (λ d. carries input.code d.pairing_code) db.wall_devices) token
        now

  -- Longer since the last check-in than the lifetime; a check-in in the future is not.
  abbrev pub is_expired : Option ℕ → ℕ → ℕ → Bool
  is_expired none ttl_sec now = false
  is_expired (some base) ttl_sec now = ltb (ttl_sec * 1000) (now - base)

  -- The device is approved and within its lifetime.
  abbrev pub is_valid : ℕ → ℕ → WallDeviceRow → Bool
  is_valid ttl_sec now row =
      row.status == "approved"
      && not (is_expired (or_instant row.last_seen_at row.approved_at) ttl_sec now)

  abbrev reconnect_row : Store → Option WallDeviceRow → ℕ → String → ℕ → Store × Option Claimed
  reconnect_row db none ttl_sec token now = (db, none)
  reconnect_row db (some row) ttl_sec token now =
      if not (is_valid ttl_sec now row) then (db, none) else (
        update_device db row.id
            (λ d. record d { token_hash = some (c.sha256 token); last_seen_at = some now }),
        some (record { device_id = row.id; token = token }),
      )

  unfoldable pub reconnect_device : Store → String → ℕ → String → ℕ → Store × Option Claimed
  reconnect_device db fingerprint ttl_sec token now =
      reconnect_row db (find (λ d. carries fingerprint d.fingerprint) db.wall_devices) ttl_sec token
        now

  abbrev pub if_valid : ℕ → ℕ → Option WallDeviceRow → Option WallDeviceRow
  if_valid ttl_sec now none = none
  if_valid ttl_sec now (some row) = if is_valid ttl_sec now row then some row else none

  unfoldable pub resolve_device_token : Store → String → ℕ → ℕ → Option WallDeviceRow
  resolve_device_token db raw_token ttl_sec now =
      if_valid ttl_sec now (find (λ d. carries (c.sha256 raw_token) d.token_hash) db.wall_devices)
