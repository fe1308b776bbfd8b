-- ===== src/Core/Totp.antt =====
-- Time-based codes, packages/core/src/totp.ts: totpCode, hotp, verifyTotp and generateRecoveryCodes.
-- The HMAC of node:crypto is a parameter, and so are random bytes. Texts are lists of code points, and
-- an instant is a number of milliseconds. `none` is an error that is thrown.
pub mod Trim
pub mod Window
pub mod Codes
use argus_monitor.Prelude.{
  ℕ, zero, suc, ◌+◌, ◌-◌, ◌*◌, ◌/◌, ◌%◌, ◌^◌, ◌≤◌, Option, none, some, List, [], ◌∷◌, ◌++◌, Bool,
  true, false, ◌&&◌, ◌||◌, not, all, length, leb, ltb, nat_eq, get_or, is_digit, to_text, same_text,
  is_empty, code_points, if◌then◌else◌,
}
use argus_monitor.Core.Base32.{is_space, base32_decode}

unfoldable pub trim_start : List ℕ → List ℕ
unfolding is_space
trim_start [] = []
trim_start (c ∷ s) = let rest = trim_start s in if is_space c then rest else c ∷ s

unfoldable pub trim_end : List ℕ → List ℕ
unfolding is_space
trim_end [] = []
trim_end (c ∷ s) = let rest = trim_end s in if is_space c && is_empty rest then [] else c ∷ rest

-- `token.trim()`.
unfoldable pub trim : List ℕ → List ℕ
unfolding trim_start trim_end
trim s = trim_end (trim_start s)

-- `writeUInt32BE`.
abbrev pub word_bytes : ℕ → List ℕ
word_bytes n = (n / 2 ^ 24 % 256) ∷ (n / 2 ^ 16 % 256) ∷ (n / 2 ^ 8 % 256) ∷ (n % 256) ∷ []

-- The two halves of the counter, which is not negative.
abbrev pub counter_bytes : ℕ → List ℕ
counter_bytes counter = word_bytes (counter / 2 ^ 32) ++ word_bytes (counter % 2 ^ 32)

-- A byte of the digest; one that is not there is undefined, of which `&` makes 0.
abbrev pub byte_at : List ℕ → ℕ → ℕ
byte_at digest i = get_or digest i 0

abbrev pub last : List ℕ → ℕ
last [] = 0
last (b ∷ []) = b
last (b ∷ c ∷ bytes) = last (c ∷ bytes)

-- The dynamic truncation; the four parts have no bit in common.
unfoldable pub truncated : List ℕ → ℕ
truncated digest =
    let offset = last digest % 16 in
    byte_at digest offset % 128 * 2 ^ 24
    + byte_at digest (offset + 1) % 256 * 2 ^ 16
    + byte_at digest (offset + 2) % 256 * 2 ^ 8
    + byte_at digest (offset + 3) % 256

abbrev pub zeros : ℕ → List ℕ
zeros zero = []
zeros (suc n) = 48 ∷ zeros n

-- `padStart(digits, "0")`.
unfoldable pub pad_start : ℕ → List ℕ → List ℕ
pad_start digits s = zeros (digits - length s) ++ s

-- `counter + offset` for an offset that is `back` less than `ahead`, or `none` if that is negative:
-- writeUInt32BE then throws.
abbrev pub shifted : ℕ → ℕ → ℕ → Option ℕ
shifted counter ahead back =
    if leb back (counter + ahead) then some (counter + ahead - back) else none

abbrev pub counter_of : ℕ → ℕ → ℕ
counter_of time step_sec = time / 1000 / step_sec

-- `trimmed.length !== digits || !/^\d+$/.test(trimmed)`, negated.
abbrev pub is_well_formed : List ℕ → ℕ → Bool
is_well_formed trimmed digits =
    nat_eq (length trimmed) digits && all is_digit trimmed && not (is_empty trimmed)

module _ (hmac_sha1 : List ℕ → List ℕ → List ℕ) where
  unfoldable pub hotp : List ℕ → ℕ → ℕ → List ℕ
  unfolding truncated pad_start to_text
  hotp key counter digits =
      pad_start digits (to_text (truncated (hmac_sha1 key (counter_bytes counter)) % 10 ^ digits))

  abbrev pub code_with : Option (List ℕ) → ℕ → ℕ → Option (List ℕ)
  code_with none counter digits = none
  code_with (some key) counter digits = some (hotp key counter digits)

  unfoldable pub totp_code : List ℕ → ℕ → ℕ → ℕ → Option (List ℕ)
  unfolding hotp
  totp_code secret time step_sec digits =
      code_with (base32_decode secret) (counter_of time step_sec) digits

  -- The loop over the offsets: the rounds that are left, how far the offset is past the first one, and
  -- whether a candidate has matched.
  unfoldable pub match_steps :
      (key submitted : List ℕ) (counter window digits rounds ahead : ℕ) → Bool → Option Bool
  unfolding hotp
  match_steps key submitted counter window digits zero ahead matched = some matched
  match_steps key submitted counter window digits (suc rounds) ahead matched =
      elim (shifted counter ahead window) [
        | none ↦ none
        | some step ↦
            match_steps key submitted counter window digits rounds (ahead + 1)
              (matched || same_text (hotp key step digits) submitted)
      ]

  abbrev pub match_with : Option (List ℕ) → List ℕ → ℕ → ℕ → ℕ → Option Bool
  match_with none submitted counter window digits = none
  match_with (some key) submitted counter window digits =
      match_steps key submitted counter window digits (2 * window + 1) 0 false

  unfoldable pub verify_totp :
      (secret token : List ℕ) (time window step_sec digits : ℕ) → Option Bool
  unfolding trim match_steps
  verify_totp secret token time window step_sec digits =
      let trimmed = trim token in
      if not (is_well_formed trimmed digits)
      then some false
      else match_with (base32_decode secret) trimmed (counter_of time step_sec) window digits

abbrev pub recovery_alphabet : List ℕ
recovery_alphabet = code_points "abcdefghjkmnpqrstuvwxyz23456789"

-- `alphabet[bytes[j] % alphabet.length]`, with the dash behind the fourth.
unfoldable pub recovery_from : ℕ → List ℕ → List ℕ
recovery_from j [] = []
recovery_from j (b ∷ bytes) =
    let rest = recovery_from (j + 1) bytes in
    get_or recovery_alphabet (b % length recovery_alphabet) 0
    ∷ (if nat_eq j 3 then 45 ∷ rest else rest)

-- A code for each draw of eight random bytes.
unfoldable pub generate_recovery_codes : List (List ℕ) → List (List ℕ)
unfolding recovery_from
generate_recovery_codes [] = []
generate_recovery_codes (bytes ∷ draws) = recovery_from 0 bytes ∷ generate_recovery_codes draws
