-- ===== src/Backend/Sessions.antt =====
-- The list of a user's sessions and their revocation, apps/backend/src/services/sessions.ts.
pub mod Revocation
use argus_monitor.Prelude.{
  ℕ, String, Option, none, some, List, map, Bool, true, false, ◌&&◌, not, ◌==◌, find, filter,
  length, update_where, is_null, leb, ltb, sort_by, if◌then◌else◌,
}
use argus_monitor.Backend.Schema.{RefreshTokenRow}
use argus_monitor.Backend.Auth.{Store, is_active}

pub record SessionDto : Type 0 where
  pub id : String
  pub user_id : String
  pub ip : Option String
  pub user_agent : Option String
  pub created_at : ℕ
  pub last_used_at : Option ℕ
  pub current : Bool

abbrev pub is_current : Option String → String → Bool
is_current none token_hash = false
is_current (some current) token_hash = token_hash == current

abbrev pub to_session : Option String → RefreshTokenRow → SessionDto
to_session current row = record {
  id = row.id;
  user_id = row.user_id;
  ip = row.ip;
  user_agent = row.user_agent;
  created_at = row.created_at;
  last_used_at = row.last_used_at;
  current = is_current current row.token_hash;
}

-- The active rows of a user.
abbrev pub is_session_of : String → ℕ → RefreshTokenRow → Bool
is_session_of user_id now row =
    row.user_id == user_id && is_null row.revoked_at && ltb now row.expires_at

-- Newest first.
unfoldable pub list_sessions : Store → String → Option String → ℕ → List SessionDto
list_sessions db user_id current now =
    sort_by (λ a b. leb b.created_at a.created_at)
      (map (to_session current) (filter (is_session_of user_id now) db.refresh_tokens))

-- UPDATE refresh_tokens SET revokedAt WHERE …
abbrev pub revoke_where : Store → (RefreshTokenRow → Bool) → ℕ → Store
revoke_where db p now = record db {
  refresh_tokens = update_where p (λ t. record t { revoked_at = some now }) db.refresh_tokens;
}

abbrev pub terminate_row : Store → Option RefreshTokenRow → String → ℕ → Store × Bool
terminate_row db none id now = (db, false)
terminate_row db (some row) id now = (revoke_where db (λ t. t.id == id) now, true)

unfoldable pub terminate_session : Store → String → ℕ → Store × Bool
terminate_session db id now = terminate_row db (find (λ t. t.id == id) db.refresh_tokens) id now

-- The further condition that an exception adds.
abbrev pub is_not_hash : Option String → RefreshTokenRow → Bool
is_not_hash none row = true
is_not_hash (some except) row = not (row.token_hash == except)

abbrev pub is_ended : String → ℕ → Option String → RefreshTokenRow → Bool
is_ended user_id now except row = is_session_of user_id now row && is_not_hash except row

unfoldable pub terminate_all_for_user : Store → String → Option String → ℕ → Store × ℕ
terminate_all_for_user db user_id except now = (
  revoke_where db (is_ended user_id now except) now,
  length (filter (is_ended user_id now except) db.refresh_tokens),
)

abbrev pub is_other : String → ℕ → String → RefreshTokenRow → Bool
is_other user_id now except_id row = is_session_of user_id now row && not (row.id == except_id)

unfoldable pub terminate_other_sessions : Store → String → String → ℕ → Store × ℕ
terminate_other_sessions db user_id except_id now = (
  revoke_where db (is_other user_id now except_id) now,
  length (filter (is_other user_id now except_id) db.refresh_tokens),
)
