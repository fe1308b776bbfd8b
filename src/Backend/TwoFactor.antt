-- ===== src/Backend/TwoFactor.antt =====
-- The second factor, apps/backend/src/services/twofa.ts. The cipher, the hash and the check of a code
-- are parameters, and so are a fresh secret and fresh recovery codes.
pub mod Recovery
use argus_monitor.Prelude.{
  ℕ, String, Option, none, some, List, [], map, Bool, true, false, not, ◌==◌, find, filter,
  includes, if◌then◌else◌,
}
use argus_monitor.Backend.Schema.{UserRow}
use argus_monitor.Backend.Crypto.{Crypto}
use argus_monitor.Backend.Auth.{Store, update_user}

-- The result of an operation, or the error that it throws: no key is configured, the code does not
-- verify, there is nothing to verify it against, or the cipher fails.
pub data Checked {ℓ} (A : Type ℓ) : Type ℓ where
  ok : A → Checked A
  config_error invalid_2fa no_pending_setup cipher_error : Checked A

-- An empty key is falsy.
abbrev pub with_key {ℓ} : {A : Type ℓ} → Option String → (String → Checked A) → Checked A
with_key none k = config_error
with_key (some raw) k = if raw == "" then config_error else k raw

abbrev pub decrypted {ℓ} : {A : Type ℓ} → Option String → (String → Checked A) → Checked A
decrypted none k = cipher_error
decrypted (some secret) k = k secret

-- A stored secret that is there and not empty.
abbrev pub secret_of : Option String → Option String
secret_of none = none
secret_of (some secret) = if secret == "" then none else some secret

pub record Verified : Type 0 where
  pub passed : Bool
  pub used_recovery : Bool

abbrev pub hashes_of : Option (List String) → List String
hashes_of none = []
hashes_of (some hashes) = hashes

module _ (c : Crypto) where
  -- `encrypted` is the new secret, sealed with the key.
  unfoldable pub begin_setup : Store → String → (encrypted : String) → ℕ → Checked Store
  begin_setup db user_id encrypted now = with_key c.encryption_key (λ key. ok (
      update_user db user_id
        (λ u. record u { totp_secret = some encrypted; totp_enabled = false; updated_at = now })))

  abbrev enabled : Store → String → List String → ℕ → Store
  enabled db user_id recovery now = update_user db user_id (λ u. record u {
    totp_enabled = true;
    totp_recovery = some (map c.sha256 recovery);
    updated_at = now;
  })

  abbrev pending_secret : Option UserRow → Option String
  pending_secret none = none
  pending_secret (some user) = secret_of user.totp_secret

  abbrev enable_with :
      Store
      → String
      → String
      → List String
      → ℕ
      → String
      → Option String
      → Checked (Store × List String)
  enable_with db user_id code recovery now key none = no_pending_setup
  enable_with db user_id code recovery now key (some sealed) =
      decrypted (c.decrypt_secret sealed key) (λ secret.
        if not (c.verify_totp secret code now)
        then invalid_2fa
        else ok (enabled db user_id recovery now, recovery))

  unfoldable pub enable :
      Store
      → String
      → (code : String) → (recovery : List String) → ℕ
      → Checked (Store × List String)
  enable db user_id code recovery now = with_key c.encryption_key (λ key.
      enable_with db user_id code recovery now key
        (pending_secret (find (λ u. u.id == user_id) db.directory.users)))

  -- A recovery code is taken off the list by its hash.
  unfoldable pub try_recovery : Store → UserRow → String → ℕ → Store × Verified
  try_recovery db user code now =
      let hashes = hashes_of user.totp_recovery in
      let submitted = c.sha256 (c.normalize_code code) in
      if includes hashes submitted
      then (
        update_user db user.id (λ u. record u {
          totp_recovery = some (filter (λ h. not (h == submitted)) hashes);
          updated_at = now;
        }),
        record { passed = true; used_recovery = true },
      )
      else (db, record { passed = false; used_recovery = false })

  abbrev pub verify_secret : Store → UserRow → String → ℕ → String → Checked (Store × Verified)
  verify_secret db user code now secret =
      if c.verify_totp secret code now
      then ok (db, record { passed = true; used_recovery = false })
      else ok (try_recovery db user code now)

  abbrev pub verify_with :
      Store → UserRow → String → ℕ → Bool → Option String → Checked (Store × Verified)
  verify_with db user code now false sealed =
      ok (db, record { passed = false; used_recovery = false })
  verify_with db user code now true none = ok (db, record { passed = false; used_recovery = false })
  verify_with db user code now true (some sealed) = with_key c.encryption_key (λ key.
      decrypted (c.decrypt_secret sealed key) (λ secret. verify_secret db user code now secret))

  unfoldable pub verify_for_login : Store → UserRow → String → ℕ → Checked (Store × Verified)
  verify_for_login db user code now =
      verify_with db user code now user.totp_enabled (secret_of user.totp_secret)

unfoldable pub disable : Store → String → ℕ → Store
disable db user_id now = update_user db user_id (λ u. record u {
  totp_enabled = false;
  totp_secret = none;
  totp_recovery = none;
  updated_at = now;
})

unfoldable pub reset_for : Store → String → ℕ → Store
unfolding disable
reset_for db user_id now = disable db user_id now
