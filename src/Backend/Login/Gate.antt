-- ===== src/Backend/Login/Gate.antt =====
-- Who is given tokens.
use argus_monitor.Prelude.{
  ℕ, ◌≡◌, ◌↔◌, ◌⊎◌, inl, inr, refl, arith, String, Option, none, some, Bool, true, false,
  Bool-cases, ◌&&◌, ◌||◌, not, ◌==◌, if◌then◌else◌,
}
use argus_monitor.Backend.Schema.{UserRow}
use argus_monitor.Backend.Crypto.{Crypto}
use argus_monitor.Backend.Auth.{Store, find_local_user, check_password}
use argus_monitor.Backend.Lockout.{is_locked}
use argus_monitor.Backend.TwoFactor.{
  Checked, ok, config_error, invalid_2fa, no_pending_setup, cipher_error, Verified,
  verify_for_login,
}
use argus_monitor.Backend.Login.{
  Credentials, Reply, LoginEnv, complete, after_verify, with_code, second_factor, login_user,
  login_found, login,
}

abbrev pub is_tokens : Reply → Bool
is_tokens (Reply.tokens claims refresh_token) = true
is_tokens Reply.invalid_request = false
is_tokens Reply.invalid_credentials = false
is_tokens Reply.two_factor_required = false
is_tokens Reply.invalid_two_factor = false
is_tokens Reply.server_misconfigured = false
is_tokens Reply.invalid_token = false
is_tokens Reply.failed = false
is_tokens (Reply.account_locked until) = false

-- The check of a second factor came out well.
abbrev pub is_verified : Checked (Store × Verified) → Bool
is_verified (ok (db, result)) = result.passed
is_verified config_error = false
is_verified invalid_2fa = false
is_verified no_pending_setup = false
is_verified cipher_error = false

module _ (c : Crypto) (env : LoginEnv) (db : Store) (now : ℕ) where
  -- The user has no second factor, or the code given is one.
  abbrev pub PassesSecond : UserRow → Option String → Type 0
  PassesSecond user code =
      (user.totp_enabled ≡ false)
      ⊎ ((digits : String) × (code ≡ some digits)
          × ((digits == "") ≡ false)
          × (is_verified (verify_for_login c db user digits now) ≡ true))

  after_verify_lem :
      (r : Checked (Store × Verified)) (user : UserRow)
      → is_tokens (after_verify c env r db user now).1 ≡ is_verified r
  unfolding complete
  after_verify_lem (ok (db', result)) user = ground arith
  after_verify_lem config_error user = refl
  after_verify_lem invalid_2fa user = refl
  after_verify_lem no_pending_setup user = refl
  after_verify_lem cipher_error user = refl

  tokens_if :
      (b : Bool) (x y : Store × Reply)
      → is_tokens (if b then x else y).1 ≡ (if b then is_tokens x.1 else is_tokens y.1)
  tokens_if true x y = refl
  tokens_if false x y = refl

  -- The tests, in the order of the route.
  abbrev code_ok : UserRow → Option String → Bool
  code_ok user none = false
  code_ok user (some code) = not (code == "") && is_verified (verify_for_login c db user code now)

  abbrev second_ok : UserRow → Option String → Bool
  second_ok user code = not user.totp_enabled || code_ok user code

  with_code_lem :
      (user : UserRow) (code : Option String)
      → is_tokens (with_code c env db user code now).1 ≡ code_ok user code
  with_code_lem user none = refl
  with_code_lem user (some code) =
      rw
        (
          tokens_if (code == "") (db, Reply.two_factor_required)
              (after_verify c env (verify_for_login c db user code now) db user now),
          after_verify_lem (verify_for_login c db user code now) user,
        )
        (ground arith)

  second_factor_lem :
      (user : UserRow) (code : Option String)
      → is_tokens (second_factor c env db user code now).1 ≡ second_ok user code
  unfolding second_factor complete
  second_factor_lem user code =
      rw
        (
          tokens_if user.totp_enabled (with_code c env db user code now)
              (complete c env db user now),
          with_code_lem user code,
        )
        (ground arith)

  second_ok_iff :
      (user : UserRow) (code : Option String)
      → (second_ok user code ≡ true) ↔ PassesSecond user code
  second_ok_iff user none = ground arith
  second_ok_iff user (some code) = (to user code, from user code)
    where
      to :
          (user : UserRow) (code : String)
          → second_ok user (some code) ≡ true
          → PassesSecond user (some code)
      to user code h = elim (Bool-cases user.totp_enabled) [
        | inl on ↦ inr (code, refl, ground arith, ground arith)
        | inr off ↦ inl off
      ]

      from :
          (user : UserRow) (code : String)
          → PassesSecond user (some code)
          → second_ok user (some code) ≡ true
      from user code (inl off) = ground arith
      from user code (inr (digits, e, given, verified)) = ground arith

  login_user_lem :
      (user : UserRow) (cred : Credentials)
      → is_tokens (login_user c env db user cred now).1 ≡ (
          not (is_locked user now)
          && check_password c user cred.password
          && second_ok user cred.code)
  unfolding login_user
  login_user_lem user cred =
      rw
        (
          tokens_if (is_locked user now) _ _,
          tokens_if (not (check_password c user cred.password)) _ _,
          second_factor_lem user cred.code,
        )
        (ground arith)

  abbrev found_ok : Option UserRow → Credentials → Bool
  found_ok none cred = false
  found_ok (some user) cred =
      not (is_locked user now) && check_password c user cred.password && second_ok user cred.code

  login_found_lem :
      (o : Option UserRow) (cred : Credentials)
      → is_tokens (login_found c env db o cred now).1 ≡ found_ok o cred
  login_found_lem none cred = refl
  login_found_lem (some user) cred = login_user_lem user cred

  login_lem :
      (cred : Credentials)
      → is_tokens (login c env db cred now).1 ≡ (
          not (cred.username == "")
          && not (cred.password == "")
          && found_ok (find_local_user db cred.username) cred)
  unfolding login
  login_lem cred =
      rw
        (
          tokens_if (cred.username == "") _ _,
          tokens_if (cred.password == "") _ _,
          login_found_lem (find_local_user db cred.username) cred,
        )
        (ground arith)

  user_of :
      (o : Option UserRow) (cred : Credentials)
      → found_ok o cred ≡ true
      → (user : UserRow) × (o ≡ some user)
        × (is_locked user now ≡ false)
        × (check_password c user cred.password ≡ true)
        × PassesSecond user cred.code
  user_of none cred h = ground arith
  user_of (some user) cred h =
      (user, refl, ground arith, ground arith, (second_ok_iff user cred.code).0 (ground arith))

  -- Tokens are given exactly when the name and the password are not empty, the name is of a usable
  -- local account, it is not locked, the password matches, and the second factor, if the account has
  -- one, verifies.
  pub login-tokens_iff :
      (cred : Credentials)
      → (is_tokens (login c env db cred now).1 ≡ true) ↔ (
          ((cred.username == "") ≡ false)
          × ((cred.password == "") ≡ false)
          × ((user : UserRow) × (find_local_user db cred.username ≡ some user)
              × (is_locked user now ≡ false)
              × (check_password c user cred.password ≡ true)
              × PassesSecond user cred.code))
  login-tokens_iff cred = (to, from)
    where
      to :
          is_tokens (login c env db cred now).1 ≡ true
          → ((cred.username == "") ≡ false)
            × ((cred.password == "") ≡ false)
            × ((user : UserRow) × (find_local_user db cred.username ≡ some user)
                × (is_locked user now ≡ false)
                × (check_password c user cred.password ≡ true)
                × PassesSecond user cred.code)
      to h =
          let h' = rw (login_lem cred) at h in
          (
            ground arith,
            ground arith,
            user_of (find_local_user db cred.username) cred (ground arith),
          )

      from :
          ((cred.username == "") ≡ false)
            × ((cred.password == "") ≡ false)
            × ((user : UserRow) × (find_local_user db cred.username ≡ some user)
                × (is_locked user now ≡ false)
                × (check_password c user cred.password ≡ true)
                × PassesSecond user cred.code)
          → is_tokens (login c env db cred now).1 ≡ true
      from (named, given, (user, found, unlocked, matches, second)) =
          let checked = (second_ok_iff user cred.code).1 second in
          rw (login_lem cred, named, given, found, unlocked, matches, checked) refl
