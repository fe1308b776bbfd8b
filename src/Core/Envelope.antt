-- ===== src/Core/Envelope.antt =====
-- Sealed secrets, packages/core/src/crypto.ts. Texts are lists of code points and buffers lists of
-- bytes. AES-256-GCM, the base64 of Buffer, `Number` and the random IV are node's: the first three
-- are fields of `Node`, and the IV is an argument. Error messages are constructors of `Failure`; the
-- two `catch` blocks around Buffer.from, which does not throw, are left out.
pub mod Format
pub mod Roundtrip
use argus_monitor.Prelude.{
  ℕ, suc, Option, none, some, List, [], ◌∷◌, ◌++◌, Bool, true, false, ◌&&◌, not, length, leb,
  nat_eq, to_text, same_text, code_points, if◌then◌else◌,
}

abbrev pub Text : Type 0
Text = List ℕ

abbrev pub Bytes : Type 0
Bytes = List ℕ

pub record Sealed : Type 0 where
  pub tag : Bytes
  pub ciphertext : Bytes

pub record Node : Type 0 where
  pub to_base64 : Bytes → Text
  pub from_base64 : Text → Bytes
  -- `Number(s)`, if it is an integer that is not negative.
  pub number : Text → Option ℕ
  -- The key, the IV and the plaintext.
  pub gcm_seal : Bytes → Bytes → Text → Sealed
  -- The key, the IV, the tag and the ciphertext; `none` is the error of `final`.
  pub gcm_open : Bytes → Bytes → Bytes → Bytes → Option Text

pub data Failure : Type 0 where
  bad_key malformed unsupported_version bad_iv bad_tag bad_key_version tampered : Failure

pub data Result {ℓ} (A : Type ℓ) : Type ℓ where
  ok : A → Result A
  fail : Failure → Result A

infixl 5 ◌>>=◌
abbrev pub ◌>>=◌ {ℓ κ} : {A : Type ℓ} {B : Type κ} → Result A → (A → Result B) → Result B
ok a >>= f = f a
fail e >>= f = fail e

abbrev pub envelope_version : Text
envelope_version = code_points "v1"

-- `parts.join(".")`.
unfoldable pub join : List Text → Text
join [] = []
join (p ∷ []) = p
join (p ∷ q ∷ parts) = p ++ 46 ∷ join (q ∷ parts)

abbrev pub push : ℕ → List Text → List Text
push c [] = (c ∷ []) ∷ []
push c (p ∷ parts) = (c ∷ p) ∷ parts

-- `envelope.split(".")`.
unfoldable pub split : Text → List Text
split [] = [] ∷ []
split (c ∷ s) = let parts = split s in if nat_eq c 46 then [] ∷ parts else push c parts

-- The five parts, if there are five.
pub record Parts : Type 0 where
  pub version : Text
  pub key_version : Text
  pub iv : Text
  pub tag : Text
  pub ciphertext : Text

abbrev pub five : List Text → Result Parts
five (a ∷ b ∷ c ∷ d ∷ e ∷ []) =
    ok (record { version = a; key_version = b; iv = c; tag = d; ciphertext = e })
five _ = fail malformed

abbrev pub opened : Option Text → Result Text
opened none = fail tampered
opened (some plaintext) = ok plaintext

abbrev pub check_version : Option ℕ → Result ℕ
check_version none = fail bad_key_version
check_version (some n) = if leb 1 n then ok n else fail bad_key_version

module _ (n : Node) where
  unfoldable pub load_key : Text → Result Bytes
  load_key base64 =
      let key = n.from_base64 base64 in if nat_eq (length key) 32 then ok key else fail bad_key

  abbrev pub envelope_of : Sealed → ℕ → Bytes → Text
  envelope_of s key_version iv = join (
      envelope_version
      ∷ to_text key_version
      ∷ n.to_base64 iv
      ∷ n.to_base64 s.tag
      ∷ n.to_base64 s.ciphertext
      ∷ [])

  unfoldable pub encrypt_secret : Text → Bytes → ℕ → (iv : Bytes) → Result Text
  unfolding join to_text
  encrypt_secret plaintext key key_version iv =
      if not (nat_eq (length key) 32)
      then fail bad_key
      else ok (envelope_of (n.gcm_seal key iv plaintext) key_version iv)

  abbrev pub decrypt_parts : Bytes → Parts → Result Text
  decrypt_parts key p =
      let iv = n.from_base64 p.iv in
      let tag = n.from_base64 p.tag in
      if not (same_text p.version envelope_version)
      then fail unsupported_version
      else if not (nat_eq (length iv) 12)
      then fail bad_iv
      else if not (nat_eq (length tag) 16)
      then fail bad_tag
      else opened (n.gcm_open key iv tag (n.from_base64 p.ciphertext))

  unfoldable pub decrypt_secret : Text → Bytes → Result Text
  unfolding split same_text
  decrypt_secret envelope key =
      if not (nat_eq (length key) 32)
      then fail bad_key
      else five (split envelope) >>= decrypt_parts key

  abbrev pub version_of : Parts → Result ℕ
  version_of p =
      if not (same_text p.version envelope_version)
      then fail unsupported_version
      else check_version (n.number p.key_version)

  unfoldable pub get_envelope_key_version : Text → Result ℕ
  unfolding split same_text
  get_envelope_key_version envelope = five (split envelope) >>= version_of

  unfoldable pub rewrap : Text → Bytes → Bytes → ℕ → (iv : Bytes) → Result Text
  unfolding decrypt_secret encrypt_secret
  rewrap envelope old_key new_key new_key_version iv =
      decrypt_secret envelope old_key >>= λ plaintext.
      encrypt_secret plaintext new_key new_key_version iv
