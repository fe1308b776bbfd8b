-- ===== src/Backend/Lockout.antt =====
-- The lockout of an account after failed logins, apps/backend/src/services/lockout.ts. An instant is
-- in milliseconds since the epoch. The numbers of a policy are whole here: a stored fraction, which the
-- source takes if it is positive, is not modelled.
use argus_monitor.Prelude.{
  ℕ, ◌+◌, ◌*◌, String, Option, none, some, Bool, true, false, ltb, leb, if◌then◌else◌,
}
use argus_monitor.Backend.Schema.{UserRow}
use argus_monitor.Backend.Auth.{Store, update_user}

pub record LockoutPolicy : Type 0 where
  pub max_attempts : ℕ
  pub window_minutes : ℕ

abbrev pub default_policy : LockoutPolicy
default_policy = record { max_attempts = 5; window_minutes = 15 }

-- The stored object, each field there when it is a number.
pub record StoredPolicy : Type 0 where
  pub max_attempts : Option ℕ
  pub window_minutes : Option ℕ

abbrev positive_or : ℕ → Option ℕ → ℕ
positive_or default none = default
positive_or default (some n) = if ltb 0 n then n else default

-- `none` is a setting that is missing or no object.
unfoldable pub get_lockout_policy : Option StoredPolicy → LockoutPolicy
get_lockout_policy none = default_policy
get_lockout_policy (some raw) = record {
  max_attempts = positive_or default_policy.max_attempts raw.max_attempts;
  window_minutes = positive_or default_policy.window_minutes raw.window_minutes;
}

abbrev pub is_after_now : ℕ → Option ℕ → Bool
is_after_now now none = false
is_after_now now (some until) = ltb now until

unfoldable pub is_locked : UserRow → ℕ → Bool
is_locked user now = is_after_now now user.locked_until

pub record LockState : Type 0 where
  pub locked : Bool
  pub locked_until : Option ℕ
  pub failed_login_count : ℕ

-- The count is the one of the row that the caller has read.
unfoldable pub record_failure : Store → UserRow → LockoutPolicy → ℕ → Store × LockState
record_failure db user policy now =
    let next_count = user.failed_login_count + 1 in
    let locked_until = now + policy.window_minutes * 60000 in
    if leb policy.max_attempts next_count
    then (
      update_user db user.id (λ u. record u {
        failed_login_count = 0;
        locked_until = some locked_until;
        updated_at = now;
      }),
      record { locked = true; locked_until = some locked_until; failed_login_count = 0 },
    )
    else (
      update_user db user.id (λ u. record u { failed_login_count = next_count; updated_at = now }),
      record { locked = false; locked_until = none; failed_login_count = next_count },
    )

unfoldable pub record_success : Store → String → ℕ → Store
record_success db user_id now =
    update_user db user_id
      (λ u. record u { failed_login_count = 0; locked_until = none; updated_at = now })

unfoldable pub clear_lock : Store → String → ℕ → Store
unfolding record_success
clear_lock db user_id now = record_success db user_id now
