-- ===== src/Backend/Login/Lock.antt =====
-- Failed logins lock the account.
use argus_monitor.Prelude.{
  ℕ, ◌+◌, ◌*◌, ◌≤◌, ◌<◌, ◌≡◌, refl, ◌∙◌, arith, String, none, some, List, [], ◌∷◌, Bool-cases, inl,
  inr, false, ◌==◌, length, All, lt→ltb, leb, if◌then◌else◌,
}
use argus_monitor.Backend.Schema.{UserRow}
use argus_monitor.Backend.Crypto.{Crypto}
use argus_monitor.Backend.Auth.{Store, is_usable, find_local_user, check_password}
use argus_monitor.Backend.Auth.Lookup.{found_after}
use argus_monitor.Backend.Lockout.{LockoutPolicy, is_locked, record_failure}
use argus_monitor.Backend.Login.{
  Credentials, Reply, invalid_credentials, account_locked, LoginEnv, login_user, login,
}

-- The row of a user after a failed login.
abbrev pub failed_row : LockoutPolicy → ℕ → UserRow → UserRow
failed_row policy now user =
    if leb policy.max_attempts (user.failed_login_count + 1)
    then record user {
      failed_login_count = 0;
      locked_until = some (now + policy.window_minutes * 60000);
      updated_at = now;
    }
    else record user { failed_login_count = user.failed_login_count + 1; updated_at = now }

failed_row-usable :
    (policy : LockoutPolicy) (now : ℕ) (user : UserRow)
    → is_usable (failed_row policy now user) ≡ is_usable user
failed_row-usable policy now user = ground arith

failed_row-username :
    (policy : LockoutPolicy) (now : ℕ) (user : UserRow)
    → (failed_row policy now user).username ≡ user.username
failed_row-username policy now user = ground arith

failed_row-hash :
    (policy : LockoutPolicy) (now : ℕ) (user : UserRow)
    → (failed_row policy now user).password_hash ≡ user.password_hash
failed_row-hash policy now user = ground arith

module _ (c : Crypto) (env : LoginEnv) where
  -- An attempt with a wrong password at an instant when the account is not locked.
  abbrev pub IsWrong : UserRow → String × ℕ → Type 0
  IsWrong user (password, now) =
      ((password == "") ≡ false)
      × (check_password c user password ≡ false)
      × (is_locked user now ≡ false)

  abbrev pub attempt : Store → String → String × ℕ → Store × Reply
  attempt db name (password, now) =
      login c env db (record { username = name; password = password; code = none }) now

  -- A failed login changes what the next login finds, and nothing about whom it finds.
  attempt_wrong :
      (db : Store) (name : String) (user : UserRow) (password : String) (now : ℕ)
      → (name == "") ≡ false
      → find_local_user db name ≡ some user
      → IsWrong user (password, now)
      → attempt db name (password, now)
        ≡ ((record_failure db user env.policy now).0, invalid_credentials)
  unfolding login login_user
  attempt_wrong db name user password now named found (given, wrong, unlocked) =
      rw (named, given, found, unlocked, wrong) refl

  found_after_failure :
      (db : Store) (name : String) (user : UserRow) (now : ℕ)
      → find_local_user db name ≡ some user
      → find_local_user (record_failure db user env.policy now).0 name
        ≡ some (failed_row env.policy now user)
  unfolding record_failure
  found_after_failure db name user now found =
      elim (Bool-cases (leb env.policy.max_attempts (user.failed_login_count + 1))) [
        | inl reached ↦ rw reached (found_after db name user _ found (λ u. refl) refl)
        | inr below ↦ rw below (found_after db name user _ found (λ u. refl) refl)
      ]

  -- The rows agree on what decides whether an attempt is wrong.
  abbrev SameGate : UserRow → UserRow → Type 0
  SameGate u v = (u.password_hash ≡ v.password_hash) × (u.locked_until ≡ v.locked_until)

  IsWrong-again : (u v : UserRow) (a : String × ℕ) → SameGate u v → IsWrong v a → IsWrong u a
  unfolding check_password is_locked
  IsWrong-again u v (password, now) (hash, until) (given, wrong, unlocked) =
      (given, rw hash wrong, rw until unlocked)

  All-IsWrong_again :
      (u v : UserRow) (xs : List (String × ℕ))
      → SameGate u v
      → All (IsWrong v) xs
      → All (IsWrong u) xs
  All-IsWrong_again u v [] same h = tt
  All-IsWrong_again u v (a ∷ xs) same h =
      (IsWrong-again u v a same h.0, All-IsWrong_again u v xs same h.1)

  abbrev pub try_all : Store → String → List (String × ℕ) → Store
  try_all db name [] = db
  try_all db name (a ∷ xs) = try_all (attempt db name a).0 name xs

  failed_row-below :
      (user : UserRow) (now : ℕ)
      → user.failed_login_count + 1 < env.policy.max_attempts
      → SameGate (failed_row env.policy now user) user
        × ((failed_row env.policy now user).failed_login_count ≡ user.failed_login_count + 1)
  failed_row-below user now below = ground arith

  -- Wrong attempts that stay below the limit are counted, and the account stays open.
  counted :
      (xs : List (String × ℕ)) (db : Store) (name : String) (user : UserRow)
      → (name == "") ≡ false
      → find_local_user db name ≡ some user
      → All (IsWrong user) xs
      → user.failed_login_count + length xs < env.policy.max_attempts
      → (u : UserRow) × (find_local_user (try_all db name xs) name ≡ some u)
        × SameGate u user
        × (u.failed_login_count ≡ user.failed_login_count + length xs)
  counted [] db name user named found wrong below = (user, found, (refl, refl), omega arith)
  counted ((password, now) ∷ xs) db name user named found wrong below =
      let (same, count) = failed_row-below user now (omega arith) in
      let next = failed_row env.policy now user in
      let (u, e, gate, n) =
        counted xs (attempt db name (password, now)).0 name next named
          (rw (attempt_wrong db name user password now named found wrong.0)
            (found_after_failure db name user now found))
          (All-IsWrong_again next user xs same wrong.1) (omega arith) in
      (u, e, (gate.0 ∙ same.0, gate.1 ∙ same.1), omega arith)

  failed_row-full :
      (user : UserRow) (now : ℕ)
      → env.policy.max_attempts ≤ user.failed_login_count + 1
      → (failed_row env.policy now user).locked_until
        ≡ some (now + env.policy.window_minutes * 60000)
  failed_row-full user now full = ground arith

  -- A locked account answers with its lock.
  locked_out :
      (db : Store) (name : String) (user : UserRow) (until : ℕ) (cred : Credentials) (now : ℕ)
      → (name == "") ≡ false
      → find_local_user db name ≡ some user
      → user.locked_until ≡ some until
      → cred.username ≡ name
      → (cred.password == "") ≡ false
      → now < until
      → login c env db cred now ≡ (db, account_locked (some until))
  unfolding login login_user is_locked
  locked_out db name user until cred now named found lock same given within =
      rw (same, named, given, found, lock, lt→ltb now until within) refl

  -- From an open account: the wrong attempts that fill the limit lock it, for the length of the window
  -- after the last of them. While it is locked every login, with the right password too, is answered
  -- with the lock and changes nothing.
  pub login-locked :
      (db : Store) (name : String) (user : UserRow) (xs : List (String × ℕ)) (password : String)
      (last : ℕ)
      → (name == "") ≡ false
      → find_local_user db name ≡ some user
      → All (IsWrong user) xs
      → IsWrong user (password, last)
      → user.failed_login_count + length xs + 1 ≡ env.policy.max_attempts
      → (cred : Credentials) (now : ℕ) → cred.username ≡ name
      → (cred.password == "") ≡ false
      → now < last + env.policy.window_minutes * 60000
      → login c env (attempt (try_all db name xs) name (password, last)).0 cred now ≡ (
        (attempt (try_all db name xs) name (password, last)).0,
        account_locked (some (last + env.policy.window_minutes * 60000)),
      )
  login-locked db name user xs password last named found wrong wrong_last full cred now same given
        within =
      let (u, e, gate, n) = counted xs db name user named found wrong (omega arith) in
      locked_out (attempt (try_all db name xs) name (password, last)).0 name
        (failed_row env.policy last u) (last + env.policy.window_minutes * 60000) cred now named
        (rw
          (attempt_wrong (try_all db name xs) name u password last named e
            (IsWrong-again u user (password, last) gate wrong_last))
          (found_after_failure (try_all db name xs) name u last e))
        (failed_row-full u last (omega arith)) same given within
