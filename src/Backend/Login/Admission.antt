-- ===== src/Backend/Login/Admission.antt =====
-- The access token of a login is admitted.
use argus_monitor.Backend.Schema.{UserRow}
use argus_monitor.Backend.Crypto.{Crypto}
use argus_monitor.Backend.Auth.{Store}
use argus_monitor.Backend.Login.{LoginEnv, complete, tokens}
use argus_monitor.Prelude.{
  String, subst, ℕ, ◌≡◌, refl, arith, none, some, true, ◌==◌, ◌+◌, ◌*◌, ◌<◌, eq_refl, any-append,
  find, update_where, find-update_where, lt→ltb,
}
use argus_monitor.Backend.Subject.{resolve_subject}
use argus_monitor.Backend.Auth.{
  get_token_version, is_session_live, issue_refresh_token, mark_logged_in,
}
use argus_monitor.Backend.Auth.Rotation.{is_session_live_lem}
use argus_monitor.Backend.Lockout.{record_success}
use argus_monitor.Backend.Authenticate.{Claims, admit, check_claims}

module _ (c : Crypto) (env : LoginEnv) (db : Store) (user : UserRow) (now : ℕ) where
  version_kept :
      find (λ u. u.id == user.id) db.directory.users ≡ some user
      → get_token_version (complete c env db user now).0 user.id ≡ some user.token_version
  unfolding complete get_token_version issue_refresh_token mark_logged_in record_success
  version_kept found =
      rw
        (
          find-update_where (λ u. u.id == user.id) (λ u. u.id == user.id)
              (λ u. record u { last_login_at = some now })
              (update_where (λ u. u.id == user.id)
                (λ u. record u { failed_login_count = 0; locked_until = none; updated_at = now })
                db.directory.users)
              (λ u. refl),
          find-update_where (λ u. u.id == user.id) (λ u. u.id == user.id)
              (λ u. record u { failed_login_count = 0; locked_until = none; updated_at = now })
              db.directory.users (λ u. refl),
          found,
          eq_refl user.id,
          eq_refl user.id,
        )
        refl

  claims_lem :
      (claims : Claims) (refresh_token : String)
      → (complete c env db user now).1 ≡ tokens claims refresh_token
      → record { sub = user.id; sid = some env.id; tv = some user.token_version } ≡ claims
  unfolding complete
  claims_lem claims refresh_token reply = ground arith

  session_open :
      (t : ℕ)
      → t < now + env.refresh_ttl_sec * 1000
      → is_session_live (complete c env db user now).0 env.id t ≡ true
  unfolding complete issue_refresh_token mark_logged_in record_success
  session_open t within =
      rw
        (
          is_session_live_lem (complete c env db user now).0 env.id t,
          any-append,
          eq_refl env.id,
          lt→ltb t (now + env.refresh_ttl_sec * 1000) within,
        )
        (ground arith)

  literal_admits :
      (t : ℕ)
      → find (λ u. u.id == user.id) db.directory.users ≡ some user
      → t < now + env.refresh_ttl_sec * 1000
      → check_claims
          (complete c env db user now).0
          (some (record { sub = user.id; sid = some env.id; tv = some user.token_version }))
          t
        ≡ admit (resolve_subject (complete c env db user now).0.directory user.id)
  unfolding check_claims
  literal_admits t found within = rw (version_kept found, session_open t within) (ground arith)

  -- The claims of the access token that the end of a login replies with are admitted, as the user's
  -- security context, for as long as the session lasts, if the user is the one with that id.
  pub complete-admits :
      (claims : Claims) (refresh_token : String) (t : ℕ)
      → (complete c env db user now).1 ≡ tokens claims refresh_token
      → find (λ u. u.id == user.id) db.directory.users ≡ some user
      → t < now + env.refresh_ttl_sec * 1000
      → check_claims (complete c env db user now).0 (some claims) t
        ≡ admit (resolve_subject (complete c env db user now).0.directory user.id)
  complete-admits claims refresh_token t reply found within =
      subst
        (λ k.
          check_claims (complete c env db user now).0 (some k) t
          ≡ admit (resolve_subject (complete c env db user now).0.directory user.id))
        (claims_lem claims refresh_token reply) (literal_admits t found within)
