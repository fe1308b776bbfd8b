-- ===== src/Backend/Auth/Rotation.antt =====
-- A refresh token is used once, and rotation replaces one session by one.
use argus_monitor.Prelude.{
  ℕ, ◌+◌, ◌*◌, ◌≡◌, ◌≢◌, arith, String, none, some, [], ◌∷◌, ◌++◌, Bool, false, ◌&&◌, ◌||◌, not,
  ◌==◌, eq_iff, find, any, update_where, is_null, adjusted, find-any, find-none, any-append,
  any-update_where, any_ext, any_ext_In, any-false, any-and, find-some, In, ltb,
}
use argus_monitor.Backend.Schema.{RefreshTokenRow}
use argus_monitor.Backend.Crypto.{Crypto}
use argus_monitor.Backend.Auth.{
  Store, is_rotatable, retire, issue_refresh_token, rotate_row, rotate_refresh_token,
  is_session_live,
}

-- No two rows share a token hash.
abbrev pub UniqueHashes : Store → Type 0
UniqueHashes db =
    (r s : RefreshTokenRow)
    → In r db.refresh_tokens
    → In s db.refresh_tokens
    → r.token_hash ≡ s.token_hash
    → r.id ≡ s.id

-- The session of the row is open at an instant.
abbrev pub is_live : String → ℕ → RefreshTokenRow → Bool
is_live sid t row = row.id == sid && is_null row.revoked_at && ltb t row.expires_at

pub is_session_live_lem :
    (db : Store) (sid : String) (t : ℕ)
    → is_session_live db sid t ≡ any (is_live sid t) db.refresh_tokens
unfolding is_session_live
is_session_live_lem db sid t = find-any (is_live sid t) db.refresh_tokens

module _ (row : RefreshTokenRow) (now : ℕ) where
  abbrev is_retired : RefreshTokenRow → Bool
  is_retired t = t.id == row.id

  abbrev retired : RefreshTokenRow → RefreshTokenRow
  retired t = record t { revoked_at = some now; last_used_at = some now }

  live-retired :
      (sid : String) (t : ℕ) (x : RefreshTokenRow)
      → is_live sid t (adjusted is_retired retired x) ≡ (not (sid == row.id) && is_live sid t x)
  live-retired sid t x = ground (arith, eq_iff x.id row.id, eq_iff x.id sid, eq_iff sid row.id)

module _ (c : Crypto) (db : Store) (raw : String) (now : ℕ) {row : RefreshTokenRow}
    (found : find (is_rotatable c raw now) db.refresh_tokens ≡ some row) where
  rotate_lem :
      (ttl_sec : ℕ) (id next : String)
      → rotate_refresh_token c db raw ttl_sec id next now
        ≡ rotate_row c db (some row) ttl_sec id next now
  unfolding rotate_refresh_token
  rotate_lem ttl_sec id next = rw found

  -- After a rotation the session of the presented token is closed, the new session is open for the
  -- lifetime given to it, and every other session is open when it was open before.
  pub rotate-sessions :
      (ttl_sec : ℕ) (id next sid : String) (t : ℕ)
      → is_session_live (rotate_refresh_token c db raw ttl_sec id next now).0 sid t ≡ (
          not (sid == row.id) && is_session_live db sid t
          || id == sid && ltb t (now + ttl_sec * 1000))
  unfolding issue_refresh_token retire
  rotate-sessions ttl_sec id next sid t =
      rw
        (
          rotate_lem ttl_sec id next,
          is_session_live_lem (rotate_row c db (some row) ttl_sec id next now).0 sid t,
          is_session_live_lem db sid t,
          any-append,
          any-update_where,
          any_ext _ (λ x. not (sid == row.id) && is_live sid t x) db.refresh_tokens
              (live-retired row now sid t),
          any-and (not (sid == row.id)) (is_live sid t) db.refresh_tokens,
        )
        (ground arith)

  spent :
      UniqueHashes db
      → (later : ℕ) (x : RefreshTokenRow) → In x db.refresh_tokens
      → is_rotatable c raw later (adjusted (is_retired row now) (retired row now) x) ≡ false
  spent unique later x m =
      let (i, e) = find-some (is_rotatable c raw now) db.refresh_tokens found in
      ground (
        arith,
        eq_iff x.id row.id,
        eq_iff x.token_hash (c.sha256 raw),
        eq_iff row.token_hash (c.sha256 raw),
        unique x row m i,
      )

  -- A token that was rotated is refused for good, if token hashes are unique in the table and the
  -- new token has another hash: a second rotation of it, at any time, changes nothing and gives no
  -- token.
  pub rotate_twice :
      UniqueHashes db
      → (ttl_sec : ℕ) (id next : String) → c.sha256 next ≢ c.sha256 raw
      → (ttl_sec' : ℕ) (id' next' : String) (later : ℕ)
      → rotate_refresh_token c
          (rotate_refresh_token c db raw ttl_sec id next now).0
          raw
          ttl_sec'
          id'
          next'
          later
        ≡ ((rotate_refresh_token c db raw ttl_sec id next now).0, none)
  unfolding rotate_refresh_token issue_refresh_token retire
  rotate_twice unique ttl_sec id next fresh ttl_sec' id' next' later =
      rw (found, find-none (is_rotatable c raw later) _ none_left)
    where
      new_row : RefreshTokenRow
      new_row = record {
        id = id;
        user_id = row.user_id;
        token_hash = c.sha256 next;
        expires_at = now + ttl_sec * 1000;
        revoked_at = none;
        user_agent = row.user_agent;
        ip = row.ip;
        last_used_at = some now;
        created_at = now;
      }

      none_left :
          any
            (is_rotatable c raw later)
            (update_where (is_retired row now) (retired row now) db.refresh_tokens ++ new_row ∷ [])
          ≡ false
      none_left =
          rw
            (
              any-append,
              any-update_where,
              any_ext_In _ (λ x. false) db.refresh_tokens (spent unique later),
              any-false,
            )
            (ground (arith, eq_iff (c.sha256 next) (c.sha256 raw)))
