-- ===== src/Backend/Sessions/Revocation.antt =====
-- Which sessions are listed after a revocation.
use argus_monitor.Prelude.{
  ℕ, ◌≤◌, ◌≡◌, refl, sym, ap, ◌∙◌, arith, String, none, some, List, [], ◌∷◌, map, Bool, true, false,
  ◌&&◌, ◌||◌, not, ◌==◌, eq_iff, any, any_ext, filter, adjusted, any-update_where, any-and,
  any-sort_by, leb, if◌then◌else◌,
}
use argus_monitor.Backend.Schema.{RefreshTokenRow}
use argus_monitor.Backend.Auth.{Store}
use argus_monitor.Backend.Sessions.{
  to_session, is_session_of, list_sessions, revoke_where, is_ended, is_other,
  terminate_all_for_user, terminate_other_sessions,
}

-- The listing of a user's sessions holds the session.
abbrev pub lists : Store → String → String → ℕ → Bool
lists db user_id sid t = any (λ s. s.id == sid) (list_sessions db user_id none t)

any-map-filter :
    (p : RefreshTokenRow → Bool) (sid : String) (rows : List RefreshTokenRow)
    → any (λ s. s.id == sid) (map (to_session none) (filter p rows))
      ≡ any (λ row. p row && row.id == sid) rows
any-map-filter p sid [] = refl
any-map-filter p sid (row ∷ rows) = ground (arith, any-map-filter p sid rows)

lists_lem :
    (db : Store) (user_id sid : String) (t : ℕ)
    → lists db user_id sid t
      ≡ any (λ row. is_session_of user_id t row && row.id == sid) db.refresh_tokens
unfolding list_sessions
lists_lem db user_id sid t =
    any-sort_by (λ s. s.id == sid) (λ a b. leb b.created_at a.created_at) _
    ∙ any-map-filter (is_session_of user_id t) sid db.refresh_tokens

abbrev revoked : ℕ → RefreshTokenRow → RefreshTokenRow
revoked now t = record t { revoked_at = some now }

any-session-revoked :
    (p : RefreshTokenRow → Bool) (db : Store) (v sid : String) (now t : ℕ)
    → any
        (λ row.
          is_session_of v t (adjusted p (revoked now) row)
          && (adjusted p (revoked now) row).id == sid)
        db.refresh_tokens
      ≡ lists (revoke_where db p now) v sid t
any-session-revoked p db v sid now t = sym (
    lists_lem (revoke_where db p now) v sid t
    ∙ any-update_where (λ row. is_session_of v t row && row.id == sid) p (revoked now)
        db.refresh_tokens)

-- A revoked row is in no list.
session-revoked :
    (b : Bool) (row : RefreshTokenRow) (v sid : String) (now t : ℕ)
    → (is_session_of v t (if b then revoked now row else row)
        && (if b then revoked now row else row).id == sid)
      ≡ (not b && (is_session_of v t row && row.id == sid))
session-revoked true row v sid now t = ground arith
session-revoked false row v sid now t = refl

-- What is left after a revocation, by what is left of each row.
lists-revoke_where :
    (p : RefreshTokenRow → Bool) (db : Store) (v sid : String) (now t : ℕ) (b : Bool)
    → ((row : RefreshTokenRow)
        → (not (p row) && (is_session_of v t row && row.id == sid))
          ≡ (b && (is_session_of v t row && row.id == sid)))
    → lists (revoke_where db p now) v sid t ≡ (b && lists db v sid t)
lists-revoke_where p db v sid now t b h =
    sym (any-session-revoked p db v sid now t)
    ∙ any_ext _ _ db.refresh_tokens (λ row. session-revoked (p row) row v sid now t ∙ h row)
    ∙ any-and b (λ row. is_session_of v t row && row.id == sid) db.refresh_tokens
    ∙ ap (λ x. b && x) (sym (lists_lem db v sid t))

-- After a user's sessions are terminated but one, at any later time that user's list holds of its
-- sessions only the one kept, and every other user's list is what it was.
pub terminate_other_sessions-lists :
    (db : Store) (user_id keep : String) (now : ℕ) (v sid : String) (t : ℕ)
    → now ≤ t
    → lists (terminate_other_sessions db user_id keep now).0 v sid t
      ≡ ((not (v == user_id) || sid == keep) && lists db v sid t)
unfolding terminate_other_sessions
terminate_other_sessions-lists db user_id keep now v sid t later =
    lists-revoke_where (is_other user_id now keep) db v sid now t _ (λ row. ground (
      arith,
      eq_iff row.user_id user_id,
      eq_iff row.user_id v,
      eq_iff v user_id,
      eq_iff row.id sid,
      eq_iff row.id keep,
      eq_iff sid keep,
    ))

-- After all the sessions of a user are terminated, at any later time the list of that user is
-- without sessions and every other user's is what it was.
pub terminate_all_for_user-lists :
    (db : Store) (user_id : String) (now : ℕ) (v sid : String) (t : ℕ)
    → now ≤ t
    → lists (terminate_all_for_user db user_id none now).0 v sid t
      ≡ (not (v == user_id) && lists db v sid t)
unfolding terminate_all_for_user
terminate_all_for_user-lists db user_id now v sid t later =
    lists-revoke_where (is_ended user_id now none) db v sid now t _
      (λ row. ground (arith, eq_iff row.user_id user_id, eq_iff row.user_id v, eq_iff v user_id))
