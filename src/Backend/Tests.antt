-- ===== src/Backend/Tests.antt =====
-- Concrete data for the runs of the backend, apps/backend/src.
mod Access
mod Monitoring
mod Administration
mod Mibs
mod Fleet
mod Page
use Prim.Native.String as Str
use argus_monitor.Prelude.{
  ℕ, String, Option, none, some, List, [], ◌∷◌, true, false, ◌==◌, ◌≡◌, ◌≢◌, false, eq_iff, arith,
}
use argus_monitor.Backend.Schema.{
  UserRow, UserGroupRow, GroupRoleRow, RolePermissionRow, PermissionRow, RefreshTokenRow,
  WallDeviceRow,
}
use argus_monitor.Backend.Subject.{Directory}
use argus_monitor.Backend.Crypto.{Crypto}
use argus_monitor.Backend.Auth.{Store}

-- A hash and a cipher that leave the text readable.
abbrev crypto : Crypto
crypto = record {
  sha256 = λ s. Str.◌++◌ "h:" s;
  verify_password = λ password hash. password == hash;
  encryption_key = some "key";
  decrypt_secret = λ sealed key. some sealed;
  verify_totp = λ secret code t. secret == code;
  normalize_code = λ code. code;
}

abbrev ada : UserRow
ada = record {
  id = "u1";
  username = "ada";
  display_name = "Ada";
  email = none;
  password_hash = some "right";
  auth_provider = "local";
  disabled = false;
  is_owner = false;
  is_system = false;
  totp_enabled = false;
  totp_secret = none;
  totp_recovery = some ("h:one" ∷ "h:two" ∷ []);
  token_version = 4;
  failed_login_count = 1;
  locked_until = none;
  last_login_at = none;
  updated_at = 0;
}

abbrev pub root_user : UserRow
root_user = record ada { id = "u0"; username = "root"; is_owner = true; is_system = true }

abbrev session_row : RefreshTokenRow
session_row = record {
  id = "s1";
  user_id = "u1";
  token_hash = "h:first";
  expires_at = 100000;
  revoked_at = none;
  user_agent = none;
  ip = none;
  last_used_at = none;
  created_at = 0;
}

abbrev directory : Directory
directory = record {
  users = root_user ∷ ada ∷ [];
  user_groups = record { user_id = "u1"; group_id = "g1" } ∷ [];
  group_roles = record { group_id = "g1"; role_id = "r1" } ∷ [];
  role_permissions = record { role_id = "r1"; permission_id = "p1" } ∷ [];
  permissions =
      record { id = "p1"; key = "agents:read" } ∷ record { id = "p2"; key = "agents:write" } ∷ [];
  user_attributes = [];
}

abbrev pending_device : WallDeviceRow
pending_device = record {
  id = "d1";
  name = "lobby";
  status = "pending";
  pairing_code = some "123456";
  fingerprint = none;
  token_hash = none;
  layout_id = none;
  group_id = none;
  last_seen_at = none;
  approved_at = none;
  created_at = 0;
  updated_at = 0;
}

abbrev store : Store
store = record {
  directory = directory;
  refresh_tokens = session_row ∷ record session_row { id = "s2"; token_hash = "h:second" } ∷ [];
  wall_devices =
      pending_device
      ∷ record pending_device {
        id = "d2";
        status = "approved";
        pairing_code = none;
        token_hash = some "h:wd";
      }
      ∷ [];
  wall_device_groups = [];
}

-- Two texts that a run tells apart.
pub apart : (a b : String) → (a == b) ≡ false → a ≢ b
apart a b h e = ground (arith, (eq_iff a b).1 e)
