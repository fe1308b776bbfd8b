-- ===== src/Backend/Users/Security/Rows.antt =====
-- What a reset, an unlock and the end of the sessions leave of a row that is found by an id,
-- apps/backend/src/routes/users.routes.ts and sessions.routes.ts.
use argus_monitor.Prelude.{
  ℕ, ◌≡◌, ◌+◌, refl, sym, ap, subst, ◌∙◌, if◌then◌else◌, update_where, arith, String, Option, none,
  some, List, Bool, Bool-cases, inl, inr, true, false, ◌==◌, eq_iff, find, adjust,
  find-update_where,
}
use argus_monitor.Backend.Schema.{UserRow}
use argus_monitor.Backend.Subject.{Directory}
use argus_monitor.Backend.Auth.{bump_token_version}
use argus_monitor.Backend.Lockout.{record_success, clear_lock}
use argus_monitor.Backend.TwoFactor.{disable, reset_for}
use argus_monitor.Backend.Users.Security.{store_of, terminate_sessions, reset_found, unlock_found}
use argus_monitor.Backend.Sessions.{terminate_all_for_user}
use argus_monitor.Backend.Users.{get_user}

abbrev pub reset_row : ℕ → UserRow → UserRow
reset_row now u = record u {
  totp_enabled = false;
  totp_secret = none;
  totp_recovery = none;
  token_version = u.token_version + 1;
  failed_login_count = 0;
  locked_until = none;
  updated_at = now;
}

abbrev pub unlocked_row : ℕ → UserRow → UserRow
unlocked_row now u = record u { failed_login_count = 0; locked_until = none; updated_at = now }

none_found :
    (dir : Directory) (row : UserRow) (id : String)
    → (id == row.id) ≡ true
    → find (λ u. u.id == id) dir.users ≡ none
    → find (λ u. u.id == row.id) dir.users ≡ some row
    → ⊥
none_found dir row id same missing k =
    let gone =
      subst (λ i. find (λ u. u.id == i) dir.users ≡ none) ((eq_iff id row.id).0 same) missing in
    let e : none ≡ some row = sym gone ∙ k in ground arith

-- An update of the row with an id, looked up by a key.
module _ (key id : String) (f : UserRow → UserRow) (same : (u : UserRow) → (f u).id ≡ u.id)
    (users : List UserRow) (row : UserRow) (k : find (λ u. u.id == key) users ≡ some row) where
  found_adjusted :
      find (λ u. u.id == key) (update_where (λ u. u.id == id) f users)
      ≡ some (if row.id == id then f row else row)
  found_adjusted =
      find-update_where (λ (u : UserRow). u.id == key) (λ u. u.id == id) f users
        (λ u. ap (λ i. i == key) (same u))
      ∙ ap (adjust (λ (u : UserRow). u.id == id) f) k

  found_own :
      (row.id == id) ≡ true
      → find (λ u. u.id == key) (update_where (λ u. u.id == id) f users) ≡ some (f row)
  found_own own = found_adjusted ∙ ap (λ b. some (if b then f row else row)) own

  found_other :
      (row.id == id) ≡ false
      → find (λ u. u.id == key) (update_where (λ u. u.id == id) f users) ≡ some row
  found_other other = found_adjusted ∙ ap (λ b. some (if b then f row else row)) other

flipped : (a b : String) (t : Bool) → (a == b) ≡ t → (b == a) ≡ t
flipped a b true e = ground (arith, eq_iff a b, eq_iff b a)
flipped a b false e = ground (arith, eq_iff a b, eq_iff b a)

abbrev disabled_row : ℕ → UserRow → UserRow
disabled_row now u = record u {
  totp_enabled = false;
  totp_secret = none;
  totp_recovery = none;
  updated_at = now;
}

abbrev pub bumped_row : UserRow → UserRow
bumped_row u = record u { token_version = u.token_version + 1 }

pub keep_reset_found :
    (dir : Directory) (id : String) (now : ℕ) (row : UserRow) (o : Option UserRow)
    → find (λ u. u.id == id) dir.users ≡ o
    → get_user dir row.id ≡ some row
    → get_user (reset_found dir id now o).0 row.id
      ≡ some (if id == row.id then reset_row now row else row)
unfolding get_user clear_lock record_success bump_token_version reset_for disable
keep_reset_found dir id now row none e k = elim (Bool-cases (id == row.id)) [
  | inl same ↦ absurd (none_found dir row id same e k)
  | inr other ↦ rw other k
]
keep_reset_found dir id now row (some target) e k = elim (Bool-cases (id == row.id)) [
  | inl same ↦
      let own = flipped id row.id true same in
      let off = found_own row.id id (disabled_row now) (λ u. refl) dir.users row k own in
      let bumped = found_own row.id id bumped_row (λ u. refl) _ (disabled_row now row) off own in
      rw same (
        found_own row.id id (unlocked_row now) (λ u. refl) _ (bumped_row (disabled_row now row))
          bumped own)
  | inr differs ↦
      let other = flipped id row.id false differs in
      let off = found_other row.id id (disabled_row now) (λ u. refl) dir.users row k other in
      let bumped = found_other row.id id bumped_row (λ u. refl) _ row off other in
      rw differs (found_other row.id id (unlocked_row now) (λ u. refl) _ row bumped other)
]

pub keep_unlock_found :
    (dir : Directory) (id : String) (now : ℕ) (row : UserRow) (o : Option UserRow)
    → find (λ u. u.id == id) dir.users ≡ o
    → get_user dir row.id ≡ some row
    → get_user (unlock_found dir id now o).0 row.id
      ≡ some (if id == row.id then unlocked_row now row else row)
unfolding get_user clear_lock record_success
keep_unlock_found dir id now row none e k = elim (Bool-cases (id == row.id)) [
  | inl same ↦ absurd (none_found dir row id same e k)
  | inr other ↦ rw other k
]
keep_unlock_found dir id now row (some target) e k = elim (Bool-cases (id == row.id)) [
  | inl same ↦ rw same (
      found_own row.id id (unlocked_row now) (λ u. refl) dir.users row k
        (flipped id row.id true same))
  | inr differs ↦ rw differs (
      found_other row.id id (unlocked_row now) (λ u. refl) dir.users row k
        (flipped id row.id false differs))
]

pub keep_terminate :
    (dir : Directory) (id : String) (now : ℕ) (row : UserRow)
    → get_user dir row.id ≡ some row
    → get_user (terminate_sessions (store_of dir) id now).0.directory row.id
      ≡ some (if id == row.id then bumped_row row else row)
unfolding get_user terminate_sessions terminate_all_for_user bump_token_version
keep_terminate dir id now row k = elim (Bool-cases (id == row.id)) [
  | inl same ↦
      rw same
        (found_own row.id id bumped_row (λ u. refl) dir.users row k (flipped id row.id true same))
  | inr differs ↦ rw differs (
      found_other row.id id bumped_row (λ u. refl) dir.users row k
        (flipped id row.id false differs))
]
