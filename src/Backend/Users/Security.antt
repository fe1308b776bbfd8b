-- ===== src/Backend/Users/Security.antt =====
-- What an administrator resets of a user's account: the second factor and the lock, in
-- apps/backend/src/routes/users.routes.ts, and the sessions, in sessions.routes.ts. No guard of a
-- protected user stands before them.
pub mod Rows
use argus_monitor.Prelude.{ℕ, String, Option, none, some, [], Bool, true, false}
use argus_monitor.Backend.Schema.{UserRow}
use argus_monitor.Backend.Subject.{Directory}
use argus_monitor.Backend.Auth.{Store, bump_token_version}
use argus_monitor.Backend.Lockout.{clear_lock}
use argus_monitor.Backend.TwoFactor.{reset_for}
use argus_monitor.Backend.Sessions.{terminate_all_for_user}
use argus_monitor.Backend.Users.{get_user}

-- A store of users, for what operations do to that table.
abbrev pub store_of : Directory → Store
store_of dir = record {
  directory = dir;
  refresh_tokens = [];
  wall_devices = [];
  wall_device_groups = [];
}

-- 404 without the user, and else true.
abbrev pub reset_found : Directory → String → ℕ → Option UserRow → Directory × Bool
reset_found dir id now none = (dir, false)
reset_found dir id now (some target) =
    ((clear_lock (bump_token_version (reset_for (store_of dir) id now) id) id now).directory, true)

unfoldable pub reset_two_factor : Directory → String → ℕ → Directory × Bool
unfolding get_user
reset_two_factor dir id now = reset_found dir id now (get_user dir id)

abbrev pub unlock_found : Directory → String → ℕ → Option UserRow → Directory × Bool
unlock_found dir id now none = (dir, false)
unlock_found dir id now (some target) = ((clear_lock (store_of dir) id now).directory, true)

unfoldable pub unlock_user : Directory → String → ℕ → Directory × Bool
unfolding get_user
unlock_user dir id now = unlock_found dir id now (get_user dir id)

-- All sessions of a user end, and their access tokens with them.
unfoldable pub terminate_sessions : Store → String → ℕ → Store × ℕ
terminate_sessions db id now =
    let (ended, count) = terminate_all_for_user db id none now in
    (bump_token_version ended id, count)
