-- ===== src/Core/Tests/Secrets.antt =====
-- Runs of the time-based codes and of the envelopes, with a toy digest and a toy cipher.
use argus_monitor.Prelude.{
  ℕ, ◌+◌, ◌-◌, ◌≡◌, ◌↔◌, refl, arith, none, some, List, [], ◌∷◌, map, Bool, true, all, ltb,
  is_digit, number_of, number_of-to_text, to_text, to_text-all, code_points, if◌then◌else◌,
}
use argus_monitor.Core.Base32.{base32_decode}
use argus_monitor.Core.Totp.{trim, counter_of, totp_code, verify_totp, generate_recovery_codes}
use argus_monitor.Core.Totp.Window.{Accepts, verify_totp_iff}
use argus_monitor.Core.Totp.Codes.{verify_totp-totp_code}
use argus_monitor.Core.Envelope.{
  Text, Node, ok, fail, unsupported_version, encrypt_secret, decrypt_secret,
  get_envelope_key_version,
}
use argus_monitor.Core.Envelope.Format.{lacks_dot}
use argus_monitor.Core.Envelope.Roundtrip.{IsNode, decrypt_secret-encrypt_secret}

-- The digest of RFC 4226, section 5.4.
abbrev digest : List ℕ → List ℕ → List ℕ
digest key counter =
    0x1f ∷ 0x86 ∷ 0x98 ∷ 0x69 ∷ 0x0e ∷ 0x02 ∷ 0xca ∷ 0x16 ∷ 0x61 ∷ 0x85 ∷ 0x50 ∷ 0xef ∷ 0x7f ∷ 0x19
    ∷ 0xda ∷ 0x8e ∷ 0x94 ∷ 0x5b ∷ 0x55 ∷ 0x5a ∷ []

abbrev secret : List ℕ
secret = code_points "MFRGG==="

secret_decodes : base32_decode secret ≡ some (97 ∷ 98 ∷ 99 ∷ [])
unfolding base32_decode
secret_decodes = refl

-- The code that the RFC gives for this digest.
code_made : totp_code digest secret 90000 30 6 ≡ some (code_points "872921")
unfolding totp_code base32_decode to_text
code_made = refl

verify_totp-totp_code_example :
    verify_totp digest secret (code_points "872921") 119000 1 30 6 ≡ some true
verify_totp-totp_code_example =
    verify_totp-totp_code digest secret (code_points "872921") 90000 119000 1 30 5 code_made
      (omega arith) (omega arith) (omega arith)

verify_totp_iff_example :
    (b : Bool) × (verify_totp digest secret (code_points " 872921") 90000 1 30 6 ≡ some b)
    × ((b ≡ true)
        ↔ Accepts digest
            (97 ∷ 98 ∷ 99 ∷ [])
            (trim (code_points " 872921"))
            (counter_of 90000 30)
            1
            6)
verify_totp_iff_example =
    verify_totp_iff digest secret (97 ∷ 98 ∷ 99 ∷ []) (code_points " 872921") 90000 1 30 6
      secret_decodes (omega arith)

-- At the first step the loop asks for the code of a step before it.
too_early : verify_totp digest secret (code_points "872921") 20000 1 30 6 ≡ none
unfolding verify_totp base32_decode
too_early = refl

recovery_code :
    generate_recovery_codes ((0 ∷ 1 ∷ 2 ∷ 3 ∷ 31 ∷ 32 ∷ 33 ∷ 255 ∷ []) ∷ [])
    ≡ code_points "abcd-abch" ∷ []
unfolding generate_recovery_codes
recovery_code = refl

-- Base64 with an alphabet without a dot: a number from the dot on goes one up.
abbrev up_one : ℕ → ℕ
up_one c = if ltb c 46 then c else c + 1

abbrev down_one : ℕ → ℕ
down_one c = if ltb c 46 then c else c - 1

down-up : (b : List ℕ) → map down_one (map up_one b) ≡ b
down-up [] = refl
down-up (c ∷ b) = ground (arith, down-up b)

up_one-lacks_dot : (b : List ℕ) → lacks_dot (map up_one b) ≡ true
up_one-lacks_dot [] = refl
up_one-lacks_dot (c ∷ b) = ground (arith, up_one-lacks_dot b)

abbrev sixteen : List ℕ
sixteen = 0 ∷ 0 ∷ 0 ∷ 0 ∷ 0 ∷ 0 ∷ 0 ∷ 0 ∷ 0 ∷ 0 ∷ 0 ∷ 0 ∷ 0 ∷ 0 ∷ 0 ∷ 0 ∷ []

-- A cipher that leaves the text readable.
abbrev node : Node
node = record {
  to_base64 = map up_one;
  from_base64 = map down_one;
  number = λ s. if all is_digit s then some (number_of s) else none;
  gcm_seal = λ key iv plaintext. record { tag = sixteen; ciphertext = plaintext };
  gcm_open = λ key iv tag ciphertext. some ciphertext;
}

number_read : (k : ℕ) → node.number (to_text k) ≡ some k
number_read k = ground (arith, to_text-all k, number_of-to_text k)

node-IsNode : IsNode node
node-IsNode = record {
  from_base64-to_base64 = down-up;
  to_base64_lacks_dot = up_one-lacks_dot;
  number-to_text = number_read;
  length-tag = λ key iv p. refl;
  gcm_open-gcm_seal = λ key iv p. refl;
}

abbrev key : List ℕ
key = 1 ∷ 1 ∷ 1 ∷ 1 ∷ 1 ∷ 1 ∷ 1 ∷ 1 ∷ 1 ∷ 1 ∷ 1 ∷ 1 ∷ 1 ∷ 1 ∷ 1 ∷ 1 ∷ sixteen

abbrev iv : List ℕ
iv = 9 ∷ 9 ∷ 9 ∷ 9 ∷ 9 ∷ 9 ∷ 9 ∷ 9 ∷ 9 ∷ 9 ∷ 9 ∷ 9 ∷ []

decrypt_secret-encrypt_secret_example :
    (envelope : Text) × (encrypt_secret node (code_points "pass.word") key 2 iv ≡ ok envelope)
    × (decrypt_secret node envelope key ≡ ok (code_points "pass.word"))
    × (get_envelope_key_version node envelope ≡ ok 2)
decrypt_secret-encrypt_secret_example =
    decrypt_secret-encrypt_secret node node-IsNode (code_points "pass.word") key iv 2 refl refl
      (omega arith)

other_version : decrypt_secret node (code_points "v2.1.a.b.c") key ≡ fail unsupported_version
unfolding decrypt_secret
other_version = refl
