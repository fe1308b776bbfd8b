-- ===== src/Backend/Authenticate/Revocation.antt =====
-- An access token dies with its version and with its session.
use argus_monitor.Prelude.{
  ℕ, ◌+◌, ◌≡◌, refl, arith, String, Option, none, some, Bool, true, false, not, ◌==◌, eq_iff,
  eq_refl, find-some, find, adjust, find-update_where, if◌then◌else◌,
}
use argus_monitor.Backend.Schema.{UserRow, RefreshTokenRow}
use argus_monitor.Backend.Subject.{resolve_subject}
use argus_monitor.Backend.Crypto.{Crypto}
use argus_monitor.Backend.Auth.{
  Store, is_rotatable, version_of, get_token_version, bump_token_version, is_session_live,
  rotate_refresh_token,
}
use argus_monitor.Backend.Auth.Rotation.{rotate-sessions}
use argus_monitor.Backend.Authenticate.{
  Claims, Outcome, token_revoked, session_revoked, version_matches, tv_ok, sid_ok, admit,
  check_claims,
}

version_after :
    (tv : ℕ) (user_id sub : String) (o : Option UserRow)
    → ((u : UserRow) → o ≡ some u → u.id ≡ sub)
    → version_matches (version_of o) tv ≡ true
    → version_matches
        (version_of
          (adjust (λ u. u.id == user_id) (λ u. record u { token_version = u.token_version + 1 }) o))
        tv
      ≡ not (sub == user_id)
version_after tv user_id sub none own h = ground arith
version_after tv user_id sub (some u) own h =
    ground (arith, own u refl, eq_iff u.id user_id, eq_iff sub user_id)

found_id :
    (db : Store) (sub : String) (u : UserRow)
    → find (λ v. v.id == sub) db.directory.users ≡ some u
    → u.id ≡ sub
found_id db sub u e =
    let (m, h) = find-some (λ v. v.id == sub) db.directory.users e in (eq_iff u.id sub).0 h

tv_ok-bump :
    (db : Store) (user_id : String) (claims : Claims) (tv : ℕ)
    → tv_ok db claims (some tv) ≡ true
    → tv_ok (bump_token_version db user_id) claims (some tv) ≡ not (claims.sub == user_id)
unfolding get_token_version bump_token_version
tv_ok-bump db user_id claims tv h =
    rw
      (find-update_where (λ u. u.id == claims.sub) (λ u. u.id == user_id)
        (λ u. record u { token_version = u.token_version + 1 }) db.directory.users (λ u. refl))
      (version_after tv user_id claims.sub (find (λ u. u.id == claims.sub) db.directory.users)
        (found_id db claims.sub) h)

sid_ok-bump :
    (db : Store) (user_id : String) (sid : Option String) (now : ℕ)
    → sid_ok (bump_token_version db user_id) sid now ≡ sid_ok db sid now
unfolding bump_token_version is_session_live
sid_ok-bump db user_id none now = refl
sid_ok-bump db user_id (some sid) now = refl

not-not : (b : Bool) (x y : Outcome) → (if not (not b) then x else y) ≡ (if b then x else y)
not-not true x y = refl
not-not false x y = refl

-- When a user's token version is raised, a token of that user that was up to date is refused as
-- revoked, and one of another user is checked as it was but for the resolution of its subject in the
-- new state.
pub bump-token_revoked :
    (db : Store) (user_id : String) (claims : Claims) (tv now : ℕ)
    → claims.tv ≡ some tv
    → tv_ok db claims (some tv) ≡ true
    → check_claims (bump_token_version db user_id) (some claims) now ≡ (
        if claims.sub == user_id
        then token_revoked
        else if not (sid_ok db claims.sid now)
        then session_revoked
        else admit (resolve_subject (bump_token_version db user_id).directory claims.sub))
unfolding check_claims
bump-token_revoked db user_id claims tv now has ok =
    rw (has, tv_ok-bump db user_id claims tv ok, sid_ok-bump db user_id claims.sid now)
      (not-not (claims.sub == user_id) _ _)

module _ (c : Crypto) (db : Store) (raw : String) (now : ℕ) {row : RefreshTokenRow}
    (found : find (is_rotatable c raw now) db.refresh_tokens ≡ some row) where
  -- After a rotation an access token of the former session is refused at every instant, unless the
  -- new row was given the former row's id: as revoked by its version when that has changed, and as a
  -- token of a revoked session otherwise.
  pub rotate-session_revoked :
      (ttl_sec : ℕ) (id next : String) (claims : Claims) (t : ℕ)
      → (id == row.id) ≡ false
      → claims.sid ≡ some row.id
      → check_claims (rotate_refresh_token c db raw ttl_sec id next now).0 (some claims) t ≡ (
          if tv_ok (rotate_refresh_token c db raw ttl_sec id next now).0 claims claims.tv
          then session_revoked
          else token_revoked)
  unfolding check_claims
  rotate-session_revoked ttl_sec id next claims t fresh former =
      rw
        (former, rotate-sessions c db raw now found ttl_sec id next row.id t, eq_refl row.id, fresh)
        (ground arith)
