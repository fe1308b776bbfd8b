-- ===== src/Backend/Auth.antt =====
-- Local accounts and refresh tokens, apps/backend/src/services/auth.ts. The database is a store of
-- tables; the instant of a call, the id of an inserted row and the random token are arguments.
pub mod Rotation
pub mod Lookup
use argus_monitor.Prelude.{
  ℕ, ◌+◌, ◌*◌, String, Option, none, some, List, [], ◌∷◌, ◌++◌, Bool, true, false, ◌&&◌, ◌||◌, not,
  ◌==◌, find, update_where, is_null, ltb, if◌then◌else◌,
}
use argus_monitor.Backend.Schema.{UserRow, RefreshTokenRow, WallDeviceRow, WallDeviceGroupRow}
use argus_monitor.Backend.Subject.{Directory}
use argus_monitor.Backend.Crypto.{Crypto}

pub record Store : Type 0 where
  pub directory : Directory
  pub refresh_tokens : List RefreshTokenRow
  pub wall_devices : List WallDeviceRow
  pub wall_device_groups : List WallDeviceGroupRow

pub record TokenMeta : Type 0 where
  pub user_agent : Option String
  pub ip : Option String

-- A row that cannot authenticate locally. An empty hash is falsy, as a null one is.
abbrev pub has_hash : Option String → Bool
has_hash none = false
has_hash (some hash) = not (hash == "")

abbrev pub is_usable : UserRow → Bool
is_usable user =
    not (user.disabled || not (user.auth_provider == "local") || not (has_hash user.password_hash))

abbrev pub if_usable : Option UserRow → Option UserRow
if_usable none = none
if_usable (some user) = if is_usable user then some user else none

unfoldable pub find_local_user : Store → String → Option UserRow
find_local_user db username = if_usable (find (λ u. u.username == username) db.directory.users)

-- UPDATE users SET … WHERE id = …
abbrev pub update_user : Store → String → (UserRow → UserRow) → Store
update_user db user_id f = record db {
  directory = record db.directory {
    users = update_where (λ u. u.id == user_id) f db.directory.users;
  };
}

unfoldable pub mark_logged_in : Store → String → ℕ → Store
mark_logged_in db user_id now = update_user db user_id (λ u. record u { last_login_at = some now })

pub record Rotated : Type 0 where
  pub user_id : String
  pub refresh_token : String
  pub session_id : String

module _ (c : Crypto) where
  abbrev pub matches_hash : String → Option String → Bool
  matches_hash password none = false
  matches_hash password (some hash) = not (hash == "") && c.verify_password password hash

  unfoldable pub check_password : UserRow → String → Bool
  check_password user password = matches_hash password user.password_hash

  abbrev pub checked : Store → Option UserRow → String → ℕ → Store × Option UserRow
  checked db none password now = (db, none)
  checked db (some user) password now =
      if not (check_password user password)
      then (db, none)
      else (mark_logged_in db user.id now, some user)

  unfoldable pub verify_local_login : Store → String → String → ℕ → Store × Option UserRow
  unfolding find_local_user check_password mark_logged_in
  verify_local_login db username password now =
      checked db (find_local_user db username) password now

  -- `id` and `raw` are the id that the database gives to the row and the random token.
  unfoldable pub issue_refresh_token :
      Store → String → ℕ → TokenMeta → (id raw : String) → ℕ → Store
  issue_refresh_token db user_id ttl_sec meta id raw now = record db {
    refresh_tokens =
        db.refresh_tokens
        ++ record {
          id = id;
          user_id = user_id;
          token_hash = c.sha256 raw;
          expires_at = now + ttl_sec * 1000;
          revoked_at = none;
          user_agent = meta.user_agent;
          ip = meta.ip;
          last_used_at = some now;
          created_at = now;
        }
          ∷ [];
  }

  -- The row is active: not revoked and not expired.
  abbrev pub is_active : ℕ → RefreshTokenRow → Bool
  is_active now row = is_null row.revoked_at && ltb now row.expires_at

  abbrev pub is_rotatable : String → ℕ → RefreshTokenRow → Bool
  is_rotatable raw now row = row.token_hash == c.sha256 raw && is_active now row

  -- UPDATE refresh_tokens SET revokedAt, lastUsedAt WHERE id = …
  unfoldable pub retire : Store → String → ℕ → Store
  retire db id now = record db {
    refresh_tokens =
        update_where (λ t. t.id == id)
          (λ t. record t { revoked_at = some now; last_used_at = some now }) db.refresh_tokens;
  }

  abbrev pub rotate_row :
      Store → Option RefreshTokenRow → ℕ → (id raw : String) → ℕ → Store × Option Rotated
  rotate_row db none ttl_sec id raw now = (db, none)
  rotate_row db (some row) ttl_sec id raw now = (
    issue_refresh_token (retire db row.id now) row.user_id ttl_sec
        (record { user_agent = row.user_agent; ip = row.ip }) id raw now,
    some (record { user_id = row.user_id; refresh_token = raw; session_id = id }),
  )

  unfoldable pub rotate_refresh_token :
      Store → String → ℕ → (id raw : String) → ℕ → Store × Option Rotated
  rotate_refresh_token db raw_token ttl_sec id raw now =
      rotate_row db (find (is_rotatable raw_token now) db.refresh_tokens) ttl_sec id raw now

  unfoldable pub revoke_refresh_token : Store → String → ℕ → Store
  revoke_refresh_token db raw_token now = record db {
    refresh_tokens =
        update_where (λ t. t.token_hash == c.sha256 raw_token && is_null t.revoked_at)
          (λ t. record t { revoked_at = some now }) db.refresh_tokens;
  }

  abbrev pub owner_of : Option RefreshTokenRow → Option String
  owner_of none = none
  owner_of (some row) = some row.user_id

  unfoldable pub user_id_for_refresh_token : Store → String → Option String
  user_id_for_refresh_token db raw_token =
      owner_of (find (λ t. t.token_hash == c.sha256 raw_token) db.refresh_tokens)

unfoldable pub bump_token_version : Store → String → Store
bump_token_version db user_id =
    update_user db user_id (λ u. record u { token_version = u.token_version + 1 })

abbrev pub version_of : Option UserRow → Option ℕ
version_of none = none
version_of (some user) = some user.token_version

unfoldable pub get_token_version : Store → String → Option ℕ
get_token_version db user_id = version_of (find (λ u. u.id == user_id) db.directory.users)

unfoldable pub is_session_live : Store → String → ℕ → Bool
is_session_live db session_id now = not (
    is_null (
      find (λ t. t.id == session_id && is_null t.revoked_at && ltb now t.expires_at)
        db.refresh_tokens))
