-- ===== src/Core/Envelope/Roundtrip.antt =====
-- What is sealed is opened again, and a rotation of keys keeps it.
use argus_monitor.Prelude.{ℕ, ◌≤◌, ◌≡◌, refl, arith, some, [], ◌∷◌, true, length, to_text}
use argus_monitor.Core.Envelope.{
  Text, Bytes, Sealed, Node, Failure, ok, fail, envelope_version, split, envelope_of,
  encrypt_secret, decrypt_secret, get_envelope_key_version, rewrap,
}
use argus_monitor.Core.Envelope.Format.{lacks_dot, split-join, to_text-lacks_dot}

-- What node documents: base64 is read back, and has no dot in its alphabet; a decimal number is read
-- back; a tag of GCM has sixteen bytes, and a sealed text is opened with its key, IV and tag.
-- The laws are node's where they are used: on lists of bytes, keys of 32 bytes, well-formed text, and
-- integers in the safe range.
pub record IsNode (n : Node) : Type 0 where
  pub from_base64-to_base64 : (b : Bytes) → n.from_base64 (n.to_base64 b) ≡ b
  pub to_base64_lacks_dot : (b : Bytes) → lacks_dot (n.to_base64 b) ≡ true
  pub number-to_text : (k : ℕ) → n.number (to_text k) ≡ some k
  pub length-tag : (key iv : Bytes) (p : Text) → length (n.gcm_seal key iv p).tag ≡ 16
  pub gcm_open-gcm_seal :
      (key iv : Bytes) (p : Text)
      → n.gcm_open key iv (n.gcm_seal key iv p).tag (n.gcm_seal key iv p).ciphertext ≡ some p

module _ (n : Node) (laws : IsNode n) where
  split-envelope_of :
      (s : Sealed) (k : ℕ) (iv : Bytes)
      → split (envelope_of n s k iv)
        ≡ envelope_version
          ∷ to_text k
          ∷ n.to_base64 iv
          ∷ n.to_base64 s.tag
          ∷ n.to_base64 s.ciphertext
          ∷ []
  split-envelope_of s k iv =
      split-join envelope_version
        (to_text k ∷ n.to_base64 iv ∷ n.to_base64 s.tag ∷ n.to_base64 s.ciphertext ∷ [])
        (ground (
          arith,
          to_text-lacks_dot k,
          laws.to_base64_lacks_dot iv,
          laws.to_base64_lacks_dot s.tag,
          laws.to_base64_lacks_dot s.ciphertext,
        ))

  -- A secret that is sealed with a key of 32 bytes, an IV of twelve and a positive version is opened
  -- with that key, and shows that version without it.
  pub decrypt_secret-encrypt_secret :
      (plaintext : Text) (key iv : Bytes) (k : ℕ)
      → length key ≡ 32
      → length iv ≡ 12
      → 1 ≤ k
      → (envelope : Text) × (encrypt_secret n plaintext key k iv ≡ ok envelope)
        × (decrypt_secret n envelope key ≡ ok plaintext)
        × (get_envelope_key_version n envelope ≡ ok k)
  unfolding encrypt_secret decrypt_secret get_envelope_key_version
  decrypt_secret-encrypt_secret plaintext key iv k lk li pos =
      let s = n.gcm_seal key iv plaintext in
      (
        envelope_of n s k iv,
        ground arith,
        rw (split-envelope_of s k iv) (
            ground (
              arith,
              laws.from_base64-to_base64 iv,
              laws.from_base64-to_base64 s.tag,
              laws.from_base64-to_base64 s.ciphertext,
              laws.length-tag key iv plaintext,
              laws.gcm_open-gcm_seal key iv plaintext,
            )),
        rw (split-envelope_of s k iv) (ground (arith, laws.number-to_text k)),
      )

  -- After a rotation to a new key, the new envelope opens with the new key to what the old one opened
  -- to with the old key, and shows the new version; and an envelope that does not open is not rotated,
  -- but answered with the same failure.
  pub rewrap-decrypt_secret :
      (envelope : Text) (old_key new_key iv : Bytes) (k : ℕ)
      → length new_key ≡ 32
      → length iv ≡ 12
      → 1 ≤ k
      → ((plaintext : Text)
          → decrypt_secret n envelope old_key ≡ ok plaintext
          → (new : Text) × (rewrap n envelope old_key new_key k iv ≡ ok new)
            × (decrypt_secret n new new_key ≡ ok plaintext)
            × (get_envelope_key_version n new ≡ ok k))
        × ((e : Failure)
            → decrypt_secret n envelope old_key ≡ fail e
            → rewrap n envelope old_key new_key k iv ≡ fail e)
  unfolding rewrap
  rewrap-decrypt_secret envelope old_key new_key iv k lk li pos = (
    λ plaintext opens.
        let (new, sealed, opens', version) =
          decrypt_secret-encrypt_secret plaintext new_key iv k lk li pos in
        (new, rw opens sealed, opens', version),
    λ e fails. rw fails refl,
  )
