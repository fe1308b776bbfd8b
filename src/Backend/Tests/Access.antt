-- ===== src/Backend/Tests/Access.antt =====
-- Runs of the login, the sessions, the tokens and the guards.
use argus_monitor.Prelude.{
  ◌+◌, ◌*◌, ◌≡◌, inl, inr, refl, sym, ap, ◌∙◌, arith, none, some, [], ◌∷◌, true, false, ◌&&◌, ◌||◌,
  not, ◌==◌, here, there, find, ltb, if◌then◌else◌, dedupe, dedupe_from,
}
use argus_monitor.Core.Authorize.{AuthSubject}
use argus_monitor.Backend.Schema.{UserRow, WallDeviceRow}
use argus_monitor.Backend.Subject.{
  is_device_subject, keys_of_permission, keys_of_role, keys_of_group, keys_of_user, attributes_of,
  resolve_subject,
}
use argus_monitor.Backend.Subject.Grants.{Grants}
use argus_monitor.Backend.Rbac.{RequirePermissionOpts, pass, require_permission}
use argus_monitor.Backend.Rbac.Guard.{require_permission_iff}
use argus_monitor.Backend.Auth.{
  Store, mark_logged_in, issue_refresh_token, find_local_user, check_password, is_rotatable,
  rotate_refresh_token, is_session_live, bump_token_version, get_token_version,
}
use argus_monitor.Backend.Auth.Rotation.{UniqueHashes, rotate-sessions, rotate_twice}
use argus_monitor.Backend.Lockout.{is_locked, record_success}
use argus_monitor.Backend.TwoFactor.{try_recovery, verify_for_login}
use argus_monitor.Backend.Login.Recovery.{login-recovery_spent}
use argus_monitor.Backend.Authenticate.{
  Claims, token_revoked, session_revoked, admit, tv_ok, check_claims,
}
use argus_monitor.Backend.Authenticate.Revocation.{bump-token_revoked, rotate-session_revoked}
use argus_monitor.Backend.Login.{
  Credentials, LoginEnv, account_locked, complete, second_factor, login_user, login,
}
use argus_monitor.Backend.Login.Lock.{attempt, try_all, login-locked}
use argus_monitor.Backend.Login.Gate.{is_tokens, login-tokens_iff}
use argus_monitor.Backend.Login.Admission.{complete-admits}
use argus_monitor.Backend.Devices.{ClaimInput, claim_device, resolve_device_token}
use argus_monitor.Backend.Devices.Access.{claim-resolves}
use argus_monitor.Backend.Tests.{root_user, crypto, ada, session_row, directory, store, apart}

abbrev ada_subject : AuthSubject
ada_subject = record {
  user_id = "u1";
  is_owner = false;
  permissions = "agents:read" ∷ [];
  attributes = [];
}

ada_resolves : resolve_subject directory "u1" ≡ some ada_subject
unfolding resolve_subject keys_of_user keys_of_group keys_of_role keys_of_permission attributes_of
    dedupe dedupe_from
ada_resolves = refl

-- The chain of rows, written out.
chain : Grants directory "u1" "agents:read"
chain = record {
  membership = record { user_id = "u1"; group_id = "g1" };
  group_role = record { group_id = "g1"; role_id = "r1" };
  role_permission = record { role_id = "r1"; permission_id = "p1" };
  permission = record { id = "p1"; key = "agents:read" };
  in_memberships = here refl;
  in_group_roles = here refl;
  in_role_permissions = here refl;
  in_permissions = here refl;
  of_user = refl;
  of_group = refl;
  of_role = refl;
  of_permission = refl;
  has_key = refl;
}

abbrev open_route : RequirePermissionOpts
open_route = record { allow_device = false; resource = none }

require_permission_iff_example :
    require_permission "agents:read" open_route (some ada_subject) ≡ pass
unfolding is_device_subject
require_permission_iff_example =
    (require_permission_iff directory "u1" ada_resolves "agents:read" open_route).1
      (refl, inr (chain, tt))

abbrev env : LoginEnv
env = record {
  policy = record { max_attempts = 3; window_minutes = 15 };
  refresh_ttl_sec = 60;
  meta = record { user_agent = none; ip = none };
  id = "s9";
  raw = "ninth";
}

abbrev good : Credentials
good = record { username = "ada"; password = "right"; code = none }

login-tokens_iff_example : is_tokens (login crypto env store good 7).1 ≡ true
unfolding find_local_user is_locked check_password
login-tokens_iff_example =
    (login-tokens_iff crypto env store 7 good).1 (refl, refl, (ada, refl, refl, refl, inl refl))

-- One failure is on record; two more lock the account.
login-locked_example :
    login crypto env
      (attempt crypto env (try_all crypto env store "ada" (("wrong", 10) ∷ [])) "ada" ("bad", 20)).0
      good
      500
    ≡ (
      (attempt crypto env
          (try_all crypto env store "ada" (("wrong", 10) ∷ []))
          "ada"
          ("bad", 20)).0,
      account_locked (some (20 + 15 * 60000)),
    )
unfolding find_local_user is_locked check_password
login-locked_example =
    login-locked crypto env store "ada" ada (("wrong", 10) ∷ []) "bad" 20 refl refl
      ((refl, refl, refl), tt) (refl, refl, refl) refl good 500 refl refl (omega arith)

complete-admits_example :
    check_claims
      (complete crypto env store ada 7).0
      (some (record { sub = "u1"; sid = some "s9"; tv = some 4 }))
      100
    ≡ admit (resolve_subject (complete crypto env store ada 7).0.directory "u1")
unfolding complete
complete-admits_example =
    complete-admits crypto env store ada 7 (record { sub = "u1"; sid = some "s9"; tv = some 4 })
      env.raw 100 refl refl (omega arith)

first_found : find (is_rotatable crypto "first" 5) store.refresh_tokens ≡ some session_row
first_found = refl

rotate-sessions_example :
    is_session_live (rotate_refresh_token crypto store "first" 60 "s3" "third" 5).0 "s1" 6
    ≡ (not ("s1" == "s1") && is_session_live store "s1" 6 || "s3" == "s1" && ltb 6 (5 + 60 * 1000))
rotate-sessions_example = rotate-sessions crypto store "first" 5 first_found 60 "s3" "third" "s1" 6

store-UniqueHashes : UniqueHashes store
store-UniqueHashes r s (here p) (here q) e = ap (λ t. t.id) p ∙ sym (ap (λ t. t.id) q)
store-UniqueHashes r s (here p) (there (here q)) e = absurd (
    apart "h:first" "h:second" refl (sym (ap (λ t. t.token_hash) p) ∙ e ∙ ap (λ t. t.token_hash) q))
store-UniqueHashes r s (there (here p)) (here q) e = absurd (
    apart "h:second" "h:first" refl (sym (ap (λ t. t.token_hash) p) ∙ e ∙ ap (λ t. t.token_hash) q))
store-UniqueHashes r s (there (here p)) (there (here q)) e =
    ap (λ t. t.id) p ∙ sym (ap (λ t. t.id) q)
store-UniqueHashes r s (there (there m)) n e = elim m [ ]
store-UniqueHashes r s m (there (there n)) e = elim n [ ]

rotate_twice_example :
    rotate_refresh_token crypto
      (rotate_refresh_token crypto store "first" 60 "s3" "third" 5).0
      "first"
      60
      "s4"
      "fourth"
      9
    ≡ ((rotate_refresh_token crypto store "first" 60 "s3" "third" 5).0, none)
rotate_twice_example =
    rotate_twice crypto store "first" 5 first_found store-UniqueHashes 60 "s3" "third"
      (apart "h:third" "h:first" refl) 60 "s4" "fourth" 9

abbrev claims : Claims
claims = record { sub = "u1"; sid = some "s1"; tv = some 4 }

bump-token_revoked_example :
    check_claims (bump_token_version store "u1") (some claims) 7 ≡ token_revoked
unfolding get_token_version
bump-token_revoked_example = bump-token_revoked store "u1" claims 4 7 refl refl

rotate-session_revoked_example :
    check_claims (rotate_refresh_token crypto store "first" 60 "s3" "third" 5).0 (some claims) 7 ≡ (
      if tv_ok (rotate_refresh_token crypto store "first" 60 "s3" "third" 5).0 claims (some 4)
      then session_revoked
      else token_revoked)
rotate-session_revoked_example =
    rotate-session_revoked crypto store "first" 5 first_found 60 "s3" "third" claims 7 refl refl

-- Ada with a second factor, and a login with the first of the recovery codes.
abbrev guarded_ada : UserRow
guarded_ada = record ada { totp_enabled = true; totp_secret = some "secret" }

abbrev guarded_store : Store
guarded_store = record store {
  directory = record directory { users = root_user ∷ guarded_ada ∷ [] };
}

abbrev by_recovery : Credentials
by_recovery = record good { code = some "one" }

abbrev left_ada : UserRow
left_ada = record guarded_ada {
  totp_recovery = some ("h:two" ∷ []);
  failed_login_count = 0;
  locked_until = none;
  last_login_at = some 7;
  updated_at = 7;
}

login-recovery_spent_example :
    (try_recovery crypto (login crypto env guarded_store by_recovery 7).0 left_ada "one" 9).1.passed
    ≡ ((try_recovery crypto guarded_store guarded_ada "one" 9).1.passed && not ("h:one" == "h:one"))
unfolding login login_user second_factor complete find_local_user verify_for_login try_recovery
    is_locked check_password record_success mark_logged_in issue_refresh_token
login-recovery_spent_example =
    login-recovery_spent crypto env guarded_store by_recovery 7 guarded_ada left_ada "one" refl refl
      refl refl refl "one" 9

abbrev screen : ClaimInput
screen = record { code = "123456"; fingerprint = some "fp"; name = none }

claim-resolves_example :
    (row : WallDeviceRow) × (resolve_device_token crypto
        (claim_device crypto store screen "wd_new" 5).0
        "wd_new"
        60
        1000
      ≡ some row)
    × (row.id ≡ "d1")
unfolding claim_device
claim-resolves_example =
    claim-resolves crypto store screen "wd_new" 60 5 1000 refl (omega arith)
      (record { device_id = "d1"; token = "wd_new" }) refl
