-- ===== src/Core/Base32/Errors.antt =====
-- When decoding of cleaned characters fails, and how long the encoded and the decoded texts are.
use argus_monitor.Prelude.{
  List, [], ◌∷◌, ◌≡◌, ℕ, suc, zero, ◌<◌, ◌≤◌, ◌+◌, ◌-◌, ◌*◌, ◌/◌, ◌%◌, ◌^◌, sym, refl, ◌↔◌, subst,
  length-append, ◌∙◌, arith, none, some, true, nat_eq, leb, length, In, here, there, Option-cases,
  Bool-cases, inl, inr,
}
use argus_monitor.Core.Base32.{
  alphabet, drain, drained, shift_in, encode_from, base32_encode, index_from, index_of,
  shift_in_char, decode_from, base32_decode, clean,
}

index_from-none : (i : ℕ) (cs : List ℕ) (c : ℕ) → index_from i cs c ≡ none → ¬ (In c cs)
unfolding index_from
index_from-none i [] c h m = elim m [ ]
index_from-none i (x ∷ xs) c h (here e) = ground arith
index_from-none i (x ∷ xs) c h (there m) = index_from-none (i + 1) xs c (ground arith) m

index_from_some : (i : ℕ) (cs : List ℕ) (c j : ℕ) → index_from i cs c ≡ some j → In c cs
unfolding index_from
index_from_some i [] c j h = cc
index_from_some i (x ∷ xs) c j h = elim (Bool-cases (nat_eq x c)) [
  | inl same ↦ here (ground arith)
  | inr other ↦ there (index_from_some (i + 1) xs c j (ground arith))
]

index_of-none : (c : ℕ) → index_of c ≡ none → ¬ (In c alphabet)
unfolding index_of
index_of-none c h = index_from-none 0 alphabet c h

index_of_some : (c j : ℕ) → index_of c ≡ some j → In c alphabet
unfolding index_of
index_of_some c j h = index_from_some 0 alphabet c j h

-- Every character is one of the alphabet.
abbrev pub Readable : List ℕ → Type 0
Readable s = (c : ℕ) → In c s → In c alphabet

drain-length : (value bits : ℕ) → (length (drain value bits) ≡ bits / 5) × (drained bits ≡ bits % 5)
unfolding drain drained
drain-length value (suc (suc (suc (suc (suc bits))))) =
    let (l, d) = drain-length value bits in (omega (arith, l), omega (arith, d))
drain-length value zero = (refl, refl)
drain-length value (suc zero) = (refl, refl)
drain-length value (suc (suc zero)) = (refl, refl)
drain-length value (suc (suc (suc zero))) = (refl, refl)
drain-length value (suc (suc (suc (suc zero)))) = (refl, refl)

-- One round of the decoder, once the character is known to have an index.
module _ (value bits char idx : ℕ) (chars : List ℕ) (known : index_of char ≡ some idx) where
  round_byte :
      {bytes : List ℕ}
      → 8 ≤ bits + 5
      → decode_from (shift_in_char value idx) (bits + 5 - 8) chars ≡ some bytes
      → decode_from value bits (char ∷ chars)
        ≡ some ((shift_in_char value idx / 2 ^ (bits + 5 - 8) % 256) ∷ bytes)
  unfolding decode_from
  round_byte many rest = rw (known, decode_from) (ground arith)

  round_short :
      bits + 5 < 8
      → decode_from value bits (char ∷ chars)
        ≡ decode_from (shift_in_char value idx) (bits + 5) chars
  unfolding decode_from
  round_short few = rw (known, decode_from) (ground arith)

  round_failed :
      leb 8 (bits + 5) ≡ true
      → decode_from (shift_in_char value idx) (bits + 5 - 8) chars ≡ none
      → decode_from value bits (char ∷ chars) ≡ none
  unfolding decode_from
  round_failed many e = rw (known, decode_from) (ground arith)

  round_some :
      (bytes : List ℕ)
      → decode_from value bits (char ∷ chars) ≡ some bytes
      → (v b : ℕ) × (rest : List ℕ) × (decode_from v b chars ≡ some rest)
  round_some bytes h = elim (Bool-cases (leb 8 (bits + 5))) [
    | inl many ↦ elim (Option-cases (decode_from (shift_in_char value idx) (bits + 5 - 8) chars)) [
      | inl none' ↦ absurd (round_none many none')
      | inr (rest, e) ↦ (shift_in_char value idx, bits + 5 - 8, rest, e)
    ]
    | inr few ↦ (shift_in_char value idx, bits + 5, bytes, sym (round_short (ground arith)) ∙ h)
  ]
    where
      round_none :
          leb 8 (bits + 5) ≡ true
          → decode_from (shift_in_char value idx) (bits + 5 - 8) chars ≡ none
          → ⊥
      round_none many e =
          let failed : decode_from value bits (char ∷ chars) ≡ none = round_failed many e in cc

-- A text of the alphabet decodes to the bytes that its bits fill.
decode_from_total :
    (s : List ℕ) (value bits : ℕ)
    → bits < 8
    → Readable s
    → (bytes : List ℕ) × (decode_from value bits s ≡ some bytes)
      × (length bytes ≡ (bits + 5 * length s) / 8)
decode_from_total [] value bits h r = ([], unfold decode_from in refl, omega arith)
decode_from_total (c ∷ s) value bits h r = elim (Option-cases (index_of c)) [
  | inl unknown ↦ absurd (index_of-none c unknown (r c (here refl)))
  | inr (idx, known) ↦ elim (Bool-cases (leb 8 (bits + 5))) [
    | inl many ↦
        let (bytes, e, l) =
          decode_from_total s (shift_in_char value idx) (bits + 5 - 8) (omega arith)
            (λ d m. r d (there m)) in
        (
          (shift_in_char value idx / 2 ^ (bits + 5 - 8) % 256) ∷ bytes,
          round_byte value bits c idx s known (ground arith) e,
          ground (arith, l),
        )
    | inr few ↦
        let (bytes, e, l) =
          decode_from_total s (shift_in_char value idx) (bits + 5) (ground arith)
            (λ d m. r d (there m)) in
        (bytes, round_short value bits c idx s known (ground arith) ∙ e, omega (arith, l))
  ]
]

unknown_fails :
    (value bits c : ℕ) (s : List ℕ) → index_of c ≡ none → decode_from value bits (c ∷ s) ≡ none
unfolding decode_from
unknown_fails value bits c s h = rw (h, decode_from)

decode_from-Readable :
    (s : List ℕ) (value bits : ℕ) (bytes : List ℕ)
    → decode_from value bits s ≡ some bytes
    → Readable s
decode_from-Readable [] value bits bytes h c m = elim m [ ]
decode_from-Readable (x ∷ s) value bits bytes h c m = elim (Option-cases (index_of x)) [
  | inl unknown ↦
      let failed : decode_from value bits (x ∷ s) ≡ none = unknown_fails value bits x s unknown in
      absurd (cc)
  | inr (idx, known) ↦ at m (index_of_some x idx known) (
      let (v, b, rest, e) = round_some value bits x idx s known bytes h in
      decode_from-Readable s v b rest e)
]
  where
    at : In c (x ∷ s) → In x alphabet → Readable s → In c alphabet
    at (here e) i r = subst (λ t. In t alphabet) (sym e) i
    at (there n) i r = r c n

decode_lem : (s : List ℕ) → base32_decode s ≡ decode_from 0 0 (clean s)
unfolding base32_decode
decode_lem s = refl

-- Decoding succeeds exactly when the cleaned characters are of the alphabet; it then gives as many bytes
-- as they have whole groups of eight bits.
pub decode_clean_lem :
    (s : List ℕ)
    → ((bytes : List ℕ) × (base32_decode s ≡ some bytes)
        × (length bytes ≡ 5 * length (clean s) / 8))
      ↔ Readable (clean s)
decode_clean_lem s = rw decode_lem (
  λ (bytes, e, l). decode_from-Readable (clean s) 0 0 bytes e,
  λ r.
      let (bytes, e, l) = decode_from_total (clean s) 0 0 (omega arith) r in
      (bytes, e, omega (arith, l)),
)

length-encode_from :
    (bytes : List ℕ) (value bits : ℕ)
    → bits < 5
    → length (encode_from value bits bytes) ≡ (bits + 8 * length bytes + 4) / 5
unfolding encode_from
length-encode_from [] value bits h = ground arith
length-encode_from (b ∷ bs) value bits h =
    let (l, d) = drain-length (shift_in value b) (bits + 8) in
    length-append (drain (shift_in value b) (bits + 8)) _
    ∙ omega (
      arith,
      l,
      d,
      length-encode_from bs (shift_in value b) (drained (bits + 8)) (omega (arith, d)),
    )

-- The base32 text of n bytes has as many characters as 8 n bits need, five to a character.
pub length-base32_encode :
    (bytes : List ℕ) → length (base32_encode bytes) ≡ (8 * length bytes + 4) / 5
unfolding base32_encode
length-base32_encode bytes = omega (arith, length-encode_from bytes 0 0 (omega arith))
