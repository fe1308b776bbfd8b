-- ===== src/Backend/Login/Recovery.antt =====
-- A login with a recovery code, apps/backend/src/routes/auth.routes.ts, spends the code.
use mathlib.Core.Option.{some-injective}
use argus_monitor.Prelude.{
  ℕ, ◌≡◌, refl, sym, ap, ◌∙◌, subst, inl, inr, arith, String, Option, none, some, Bool, true, false,
  ◌&&◌, not, ◌==◌, Bool-cases, if◌then◌else◌,
}
use argus_monitor.Backend.Schema.{UserRow}
use argus_monitor.Backend.Crypto.{Crypto}
use argus_monitor.Backend.Auth.{
  Store, find_local_user, check_password, issue_refresh_token, mark_logged_in,
}
use argus_monitor.Backend.Auth.Lookup.{found_after}
use argus_monitor.Backend.Lockout.{is_locked, record_success}
use argus_monitor.Backend.TwoFactor.{
  Checked, ok, config_error, invalid_2fa, no_pending_setup, cipher_error, Verified, with_key,
  decrypted, secret_of, try_recovery, verify_secret, verify_with, verify_for_login,
}
use argus_monitor.Backend.TwoFactor.Recovery.{hash_of, spent_row, found_spent, spent_lem}
use argus_monitor.Backend.Login.{
  Credentials, LoginEnv, complete, after_verify, with_code, two_factor_required, invalid_two_factor,
  second_factor, login_user, login,
}
use argus_monitor.Backend.Login.Gate.{is_tokens, PassesSecond, login-tokens_iff}

-- The check passed by a recovery code.
abbrev pub is_by_recovery : Checked (Store × Verified) → Bool
is_by_recovery (ok (db, result)) = result.used_recovery
is_by_recovery config_error = false
is_by_recovery invalid_2fa = false
is_by_recovery no_pending_setup = false
is_by_recovery cipher_error = false

module _ (c : Crypto) (db : Store) (user : UserRow) (code : String) (now : ℕ) where
  used_secret :
      (secret : String)
      → is_by_recovery (verify_secret c db user code now secret) ≡ true
      → verify_secret c db user code now secret ≡ ok (try_recovery c db user code now)
  used_secret secret h = elim (Bool-cases (c.verify_totp secret code now)) [
    | inl totp ↦ absurd (let k = (rw totp at h) in ground arith)
    | inr other ↦ rw other refl
  ]

  -- What a continuation that is reached only with a key and a plain text comes to.
  used_decrypted :
      (plain : Option String)
      → is_by_recovery (decrypted plain (λ secret. verify_secret c db user code now secret)) ≡ true
      → decrypted plain (λ secret. verify_secret c db user code now secret)
        ≡ ok (try_recovery c db user code now)
  used_decrypted none h = absurd (ground arith)
  used_decrypted (some secret) h = used_secret secret h

  abbrev opened : String → String → Checked (Store × Verified)
  opened sealed key =
      decrypted (c.decrypt_secret sealed key) (λ secret. verify_secret c db user code now secret)

  used_key :
      (sealed : String) (key : Option String)
      → is_by_recovery (with_key key (opened sealed)) ≡ true
      → with_key key (opened sealed) ≡ ok (try_recovery c db user code now)
  used_key sealed none h = absurd (ground arith)
  used_key sealed (some raw) h = elim (Bool-cases (raw == "")) [
    | inl empty ↦ absurd (let k = (rw empty at h) in ground arith)
    | inr given ↦
        rw given (used_decrypted (c.decrypt_secret sealed raw) (let k = (rw given at h) in k))
  ]

  used_with :
      (enabled : Bool) (sealed : Option String)
      → is_by_recovery (verify_with c db user code now enabled sealed) ≡ true
      → (enabled ≡ true)
        × (verify_with c db user code now enabled sealed ≡ ok (try_recovery c db user code now))
  used_with false sealed h = absurd (ground arith)
  used_with true none h = absurd (ground arith)
  used_with true (some sealed) h = (refl, used_key sealed c.encryption_key h)

  used_lem :
      is_by_recovery (verify_for_login c db user code now) ≡ true
      → (user.totp_enabled ≡ true)
        × (verify_for_login c db user code now ≡ ok (try_recovery c db user code now))
  unfolding verify_for_login
  used_lem h = used_with user.totp_enabled (secret_of user.totp_secret) h

  passed_by :
      (try_recovery c db user code now).1.used_recovery ≡ true
      → (try_recovery c db user code now).1.passed ≡ true
  unfolding try_recovery
  passed_by h = ground arith

module _ (c : Crypto) (env : LoginEnv) (db : Store) (cred : Credentials) (now : ℕ) where
  not_empty :
      (user : UserRow) (code : String)
      → cred.code ≡ some code
      → user.totp_enabled ≡ true
      → PassesSecond c env db now user cred.code
      → (code == "") ≡ false
  not_empty user code given on (inl off) = absurd (ground arith)
  not_empty user code given on (inr (digits, e, filled, verified)) =
      subst (λ d. (d == "") ≡ false) (some-injective digits code (sym e ∙ given)) filled

  -- The row that a completed login leaves for the next one.
  completed_row :
      (spent : Store) (user row : UserRow)
      → user.id ≡ row.id
      → find_local_user spent cred.username ≡ some row
      → find_local_user (complete c env spent user now).0 cred.username
        ≡ some (record row {
          failed_login_count = 0;
          locked_until = none;
          updated_at = now;
          last_login_at = some now;
        })
  unfolding complete issue_refresh_token mark_logged_in record_success find_local_user
  completed_row spent user row own found =
      let cleared =
        found_after spent cred.username row
          (λ u. record u { failed_login_count = 0; locked_until = none; updated_at = now }) found
          (λ u. refl) refl in
      rw own (
        found_after (record_success spent row.id now) cred.username
          (record row { failed_login_count = 0; locked_until = none; updated_at = now })
          (λ u. record u { last_login_at = some now }) cleared (λ u. refl) refl)

  second_reached :
      (user : UserRow) (code : String)
      → user.totp_enabled ≡ true
      → (code == "") ≡ false
      → verify_for_login c db user code now ≡ ok (try_recovery c db user code now)
      → (try_recovery c db user code now).1.passed ≡ true
      → second_factor c env db user (some code) now
        ≡ complete c env (try_recovery c db user code now).0 user now
  unfolding second_factor
  second_reached user code on filled verified passed =
      ap (λ b. if b then with_code c env db user (some code) now else complete c env db user now) on
      ∙ ap
          (λ b.
            if b
            then (db, two_factor_required)
            else after_verify c env (verify_for_login c db user code now) db user now)
          filled
      ∙ ap (λ r. after_verify c env r db user now) verified
      ∙ ap
          (λ b.
            if b
            then complete c env (try_recovery c db user code now).0 user now
            else ((try_recovery c db user code now).0, invalid_two_factor))
          passed

  reached :
      (user : UserRow) (code : String)
      → find_local_user db cred.username ≡ some user
      → cred.code ≡ some code
      → is_tokens (login c env db cred now).1 ≡ true
      → is_by_recovery (verify_for_login c db user code now) ≡ true
      → (login c env db cred now ≡ complete c env (try_recovery c db user code now).0 user now)
        × ((try_recovery c db user code now).1.passed ≡ true)
  unfolding login login_user
  reached user code found given tokens by =
      let (on, verified) = used_lem c db user code now by in
      let passed = passed_by c db user code now (rw verified at by) in
      let (named, filled, (found_user, e, unlocked, matches, second)) =
        (login-tokens_iff c env db now cred).0 tokens in
      let same : found_user ≡ user = some-injective found_user user (sym e ∙ found) in
      let usable = subst (λ u. is_locked u now ≡ false) same unlocked in
      let known = subst (λ u. check_password c u cred.password ≡ true) same matches in
      let coded =
        not_empty user code given on
          (subst (λ u. PassesSecond c env db now u cred.code) same second) in
      (
        rw (named, filled, found, usable, known, given)
            (second_reached user code on coded verified passed),
        passed,
      )

  -- After a login that is answered with tokens for a recovery code, the row that the next login finds
  -- accepts the recovery codes that the former row did, but none with the hash of the code that was
  -- used.
  pub login-recovery_spent :
      (user next : UserRow) (code : String)
      → find_local_user db cred.username ≡ some user
      → cred.code ≡ some code
      → is_tokens (login c env db cred now).1 ≡ true
      → is_by_recovery (verify_for_login c db user code now) ≡ true
      → find_local_user (login c env db cred now).0 cred.username ≡ some next
      → (other : String) (t : ℕ)
      → (try_recovery c (login c env db cred now).0 next other t).1.passed
        ≡ ((try_recovery c db user other t).1.passed && not (hash_of c other == hash_of c code))
  login-recovery_spent user next code found given tokens by after other t =
      let (e, passed) = reached user code found given tokens by in
      let spent = (try_recovery c db user code now).0 in
      let row = found_spent c db cred.username user code now found passed in
      let completed = completed_row spent user (spent_row c user code now) refl row in
      let left =
        ap (λ (u : UserRow). u.totp_recovery)
          (some-injective _ next
            (sym completed ∙ ap (λ r. find_local_user r.0 cred.username) (sym e) ∙ after)) in
      spent_lem c db (login c env db cred now).0 user next code (sym left) other t
