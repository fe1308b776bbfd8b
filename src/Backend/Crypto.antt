-- ===== src/Backend/Crypto.antt =====
-- What the authentication services call and this library does not define: the hash and the cipher of
-- node:crypto, the password check that rests on scrypt, the TOTP check of a code, and the text
-- operations that a recovery code goes through. Each is a parameter.
use argus_monitor.Prelude.{ℕ, String, Option, Bool}

pub record Crypto : Type 0 where
  pub sha256 : String → String
  pub verify_password : String → String → Bool
  -- `process.env.ENCRYPTION_KEY`.
  pub encryption_key : Option String
  -- `decryptSecret(envelope, key)`; `none` is an error that it throws.
  pub decrypt_secret : String → String → Option String
  -- `verifyTotp(secret, code)` at an instant.
  pub verify_totp : String → String → ℕ → Bool
  -- `code.trim().toLowerCase()`.
  pub normalize_code : String → String
