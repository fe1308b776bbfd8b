-- ===== src/Backend/Authenticate.antt =====
-- The `authenticate` preHandler, apps/backend/src/plugins/auth.ts. The check of a JWT is a parameter.
pub mod Revocation
use Prim.Native.String as Str
use text.Mathlib.Text.{starts_with}
use argus_monitor.Prelude.{
  ℕ, zero, suc, String, Option, none, some, Bool, true, false, ◌&&◌, not, ◌==◌, nat_eq,
  if◌then◌else◌,
}
use argus_monitor.Core.Authorize.{AuthSubject}
use argus_monitor.Backend.Schema.{WallDeviceRow}
use argus_monitor.Backend.Subject.{static_admin_subject, device_subject, resolve_subject}
use argus_monitor.Backend.Crypto.{Crypto}
use argus_monitor.Backend.Auth.{Store, get_token_version, is_session_live}
use argus_monitor.Backend.Devices.{resolve_device_token}

-- The claims of an access token: the user, the session and the token version.
pub record Claims : Type 0 where
  pub sub : String
  pub sid : Option String
  pub tv : Option ℕ

-- What the handler reads: the configured admin token, the verifier of a JWT (of the whole header;
-- `none` where it throws), and the lifetime of a display's session.
pub record Config : Type 0 where
  pub admin_token : Option String
  pub jwt_verify : Option String → Option Claims
  pub device_ttl_sec : ℕ

-- What the handler leaves on the request, or the error that it answers with 401.
pub data Outcome : Type 0 where
  authenticated : AuthSubject → Option String → Outcome
  unauthorized token_revoked session_revoked : Outcome

abbrev pub version_matches : Option ℕ → ℕ → Bool
version_matches none tv = false
version_matches (some current) tv = nat_eq current tv

-- A claim that is absent is not checked.
abbrev pub tv_ok : Store → Claims → Option ℕ → Bool
tv_ok db claims none = true
tv_ok db claims (some tv) = version_matches (get_token_version db claims.sub) tv

abbrev pub sid_ok : Store → Option String → ℕ → Bool
sid_ok db none now = true
sid_ok db (some sid) now = is_session_live db sid now

abbrev pub admit : Option AuthSubject → Outcome
admit none = unauthorized
admit (some subject) = authenticated subject none

unfoldable pub check_claims : Store → Option Claims → ℕ → Outcome
check_claims db none now = unauthorized
check_claims db (some claims) now =
    if not (tv_ok db claims claims.tv)
    then token_revoked
    else if not (sid_ok db claims.sid now)
    then session_revoked
    else admit (resolve_subject db.directory claims.sub)

abbrev pub admit_device : Option WallDeviceRow → Outcome
admit_device none = unauthorized
admit_device (some device) = authenticated (device_subject device.id) (some device.id)

-- An empty admin token is falsy.
abbrev pub is_admin_header : Option String → Option String → Bool
is_admin_header none header = false
is_admin_header (some token) none = false
is_admin_header (some token) (some header) = not (token == "") && header == Str.◌++◌ "Bearer " token

-- `s.slice(n)`.
abbrev pub slice_from : ℕ → String → String
slice_from zero s = s
slice_from (suc n) Str.[] = Str.[]
slice_from (suc n) (Str.◌∷◌ c s) = slice_from n s

-- The device token in a header: what follows `Bearer `, when that starts with `wd_`.
abbrev pub device_token : Option String → Option String
device_token none = none
device_token (some header) =
    if starts_with header "Bearer wd_" then some (slice_from 7 header) else none

module _ (c : Crypto) (config : Config) where
  abbrev by_token : Store → Option String → Option String → ℕ → Outcome
  by_token db header none now = check_claims db (config.jwt_verify header) now
  by_token db header (some token) now =
      admit_device (resolve_device_token c db token config.device_ttl_sec now)

  unfoldable pub authenticate : Store → Option String → ℕ → Outcome
  authenticate db header now =
      if is_admin_header config.admin_token header
      then authenticated static_admin_subject none
      else by_token db header (device_token header) now
