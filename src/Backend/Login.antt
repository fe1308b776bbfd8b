-- ===== src/Backend/Login.antt =====
-- The login, refresh and logout routes, apps/backend/src/routes/auth.routes.ts. The audit trail is not
-- part of the state; the signature of an access token is a parameter, so a reply carries its claims.
pub mod Lock
pub mod Gate
pub mod Admission
pub mod Recovery
use argus_monitor.Prelude.{ℕ, String, Option, none, some, not, ◌==◌, if◌then◌else◌}
use argus_monitor.Backend.Schema.{UserRow}
use argus_monitor.Backend.Crypto.{Crypto}
use argus_monitor.Backend.Auth.{
  Store, TokenMeta, Rotated, find_local_user, check_password, mark_logged_in, issue_refresh_token,
  rotate_refresh_token, revoke_refresh_token, get_token_version,
}
use argus_monitor.Backend.Lockout.{LockoutPolicy, is_locked, record_failure, record_success}
use argus_monitor.Backend.TwoFactor.{
  Checked, ok, config_error, invalid_2fa, no_pending_setup, cipher_error, Verified,
  verify_for_login,
}
use argus_monitor.Backend.Authenticate.{Claims}

pub record Credentials : Type 0 where
  pub username : String
  pub password : String
  pub code : Option String

-- The reply: an error with its status code, or the tokens. `failed` is an exception that the route
-- throws on.
pub data Reply : Type 0 where
  invalid_request invalid_credentials two_factor_required invalid_two_factor : Reply
  server_misconfigured invalid_token failed : Reply
  account_locked : Option ℕ → Reply
  tokens : Claims → String → Reply

-- The status code of an error, or 200.
unfoldable pub status_code : Reply → ℕ
status_code invalid_request = 400
status_code invalid_credentials = 401
status_code two_factor_required = 401
status_code invalid_two_factor = 401
status_code server_misconfigured = 500
status_code invalid_token = 401
status_code failed = 500
status_code (account_locked until) = 423
status_code (tokens claims refresh_token) = 200

-- What the route reads beside the store and the request: the policy and the lifetime of a refresh
-- token; and what it draws: the id of the new row and the random token.
pub record LoginEnv : Type 0 where
  pub policy : LockoutPolicy
  pub refresh_ttl_sec : ℕ
  pub meta : TokenMeta
  pub id : String
  pub raw : String

module _ (c : Crypto) (env : LoginEnv) where
  -- Password and any second factor have verified.
  unfoldable pub complete : Store → UserRow → ℕ → Store × Reply
  complete db user now = (
    issue_refresh_token c (mark_logged_in (record_success db user.id now) user.id now) user.id
        env.refresh_ttl_sec env.meta env.id env.raw now,
    tokens (record { sub = user.id; sid = some env.id; tv = some user.token_version }) env.raw,
  )

  abbrev after_verify : Checked (Store × Verified) → Store → UserRow → ℕ → Store × Reply
  after_verify (ok (db', result)) db user now =
      if result.passed then complete db' user now else (db', invalid_two_factor)
  after_verify config_error db user now = (db, server_misconfigured)
  after_verify invalid_2fa db user now = (db, failed)
  after_verify no_pending_setup db user now = (db, failed)
  after_verify cipher_error db user now = (db, failed)

  -- A code that is absent or empty.
  abbrev with_code : Store → UserRow → Option String → ℕ → Store × Reply
  with_code db user none now = (db, two_factor_required)
  with_code db user (some code) now =
      if code == ""
      then (db, two_factor_required)
      else after_verify (verify_for_login c db user code now) db user now

  unfoldable pub second_factor : Store → UserRow → Option String → ℕ → Store × Reply
  second_factor db user code now =
      if user.totp_enabled then with_code db user code now else complete db user now

  unfoldable pub login_user : Store → UserRow → Credentials → ℕ → Store × Reply
  login_user db user cred now =
      if is_locked user now
      then (db, account_locked user.locked_until)
      else if not (check_password c user cred.password)
      then ((record_failure db user env.policy now).0, invalid_credentials)
      else second_factor db user cred.code now

  abbrev login_found : Store → Option UserRow → Credentials → ℕ → Store × Reply
  login_found db none cred now = (db, invalid_credentials)
  login_found db (some user) cred now = login_user db user cred now

  -- The zod schema: a user name and a password that are not empty.
  unfoldable pub login : Store → Credentials → ℕ → Store × Reply
  login db cred now =
      if cred.username == ""
      then (db, invalid_request)
      else if cred.password == ""
      then (db, invalid_request)
      else login_found db (find_local_user db cred.username) cred now

  abbrev version_or_zero : Option ℕ → ℕ
  version_or_zero none = 0
  version_or_zero (some tv) = tv

  abbrev refreshed : Store × Option Rotated → Store × Reply
  refreshed (db, none) = (db, invalid_token)
  refreshed (db, some r) = (
    db,
    tokens
        (record {
          sub = r.user_id;
          sid = some r.session_id;
          tv = some (version_or_zero (get_token_version db r.user_id));
        })
        r.refresh_token,
  )

  unfoldable pub refresh : Store → String → ℕ → Store × Reply
  refresh db refresh_token now =
      if refresh_token == ""
      then (db, invalid_request)
      else refreshed
          (rotate_refresh_token c db refresh_token env.refresh_ttl_sec env.id env.raw now)

  unfoldable pub logout : Store → String → ℕ → Store
  logout db refresh_token now =
      if refresh_token == "" then db else revoke_refresh_token c db refresh_token now
