-- ===== src/Core/Base32/Steps.antt =====
-- One round of the encoder and of the decoder, and the bits that they pass between them.
use argus_monitor.Prelude.{
  ℕ, ◌+◌, ◌-◌, ◌*◌, ◌/◌, ◌%◌, ◌^◌, ◌≤◌, ◌<◌, ◌≡◌, refl, arith, Option, none, some, List, [], ◌∷◌,
  Bool, true, false, nat_eq, passes_under, passes_under_lem,
}
use argus_monitor.Core.Base32.{
  word, char_at, shift_in, encode_from, index_of, shift_in_char, decode_from,
}

is_index : ℕ → Option ℕ → Bool
is_index i none = false
is_index i (some j) = nat_eq j i

is_index_lem : (i : ℕ) (o : Option ℕ) → is_index i o ≡ true → o ≡ some i
unfolding is_index
is_index_lem i o h = ground arith

index_table : passes_under (λ i. is_index i (index_of (char_at i))) 32 ≡ true
unfolding passes_under is_index index_of char_at
index_table = refl

index_of-char_at : (i : ℕ) → i < 32 → index_of (char_at i) ≡ some i
index_of-char_at i h =
    is_index_lem i (index_of (char_at i))
      (passes_under_lem (λ i. is_index i (index_of (char_at i))) 32 i h index_table)

module _ (v i : ℕ) (cs : List ℕ) (h : i < 32) where
  pub decode_short :
      (bits : ℕ)
      → bits + 5 < 8
      → decode_from v bits (char_at i ∷ cs) ≡ decode_from (shift_in_char v i) (bits + 5) cs
  unfolding decode_from
  decode_short bits few = rw (index_of-char_at i h, decode_from) (ground arith)

  pub decode_byte :
      (bits p : ℕ) (bytes : List ℕ)
      → 8 ≤ bits + 5
      → shift_in_char v i / 2 ^ (bits + 5 - 8) % 256 ≡ p
      → decode_from (shift_in_char v i) (bits + 5 - 8) cs ≡ some bytes
      → decode_from v bits (char_at i ∷ cs) ≡ some (p ∷ bytes)
  unfolding decode_from
  decode_byte bits p bytes many e rest = rw (index_of-char_at i h, decode_from) (ground arith)

module _ (V q : ℕ) (bs : List ℕ) where
  pub encode_at_0 :
      encode_from V 0 (q ∷ bs)
      ≡ char_at (shift_in V q / 2 ^ 3 % 32) ∷ encode_from (shift_in V q) 3 bs
  unfolding encode_from
  encode_at_0 = refl

  pub encode_at_1 :
      encode_from V 1 (q ∷ bs)
      ≡ char_at (shift_in V q / 2 ^ 4 % 32) ∷ encode_from (shift_in V q) 4 bs
  unfolding encode_from
  encode_at_1 = refl

  pub encode_at_2 :
      encode_from V 2 (q ∷ bs)
      ≡ char_at (shift_in V q / 2 ^ 5 % 32)
        ∷ char_at (shift_in V q / 2 ^ 0 % 32)
        ∷ encode_from (shift_in V q) 0 bs
  unfolding encode_from
  encode_at_2 = refl

  pub encode_at_3 :
      encode_from V 3 (q ∷ bs)
      ≡ char_at (shift_in V q / 2 ^ 6 % 32)
        ∷ char_at (shift_in V q / 2 ^ 1 % 32)
        ∷ encode_from (shift_in V q) 1 bs
  unfolding encode_from
  encode_at_3 = refl

  pub encode_at_4 :
      encode_from V 4 (q ∷ bs)
      ≡ char_at (shift_in V q / 2 ^ 7 % 32)
        ∷ char_at (shift_in V q / 2 ^ 2 % 32)
        ∷ encode_from (shift_in V q) 2 bs
  unfolding encode_from
  encode_at_4 = refl

-- `held` bits of the byte `p` are still with the encoder, the others with the decoder.
pub record Split (held : ℕ) (V W p : ℕ) : Type 0 where
  pub byte : p < 256
  pub encoder : V % 2 ^ held ≡ p % 2 ^ held
  pub decoder : W % 2 ^ (8 - held) ≡ p / 2 ^ held

pub mask_lt : (n : ℕ) → n % 32 < 32
mask_lt n = omega arith

pub Split-0 :
    (V W q : ℕ) → q < 256 → Split 3 (shift_in V q) (shift_in_char W (shift_in V q / 2 ^ 3 % 32)) q
Split-0 V W q h = omega arith

pub byte_1 :
    (V W p q : ℕ)
    → q < 256
    → Split 1 V W p
    → (shift_in_char W (shift_in V q / 2 ^ 4 % 32)) / 2 ^ 4 % 256 ≡ p
byte_1 V W p q h s = omega arith

pub Split-1 :
    (V W p q : ℕ)
    → q < 256
    → Split 1 V W p
    → Split 4 (shift_in V q) (shift_in_char W (shift_in V q / 2 ^ 4 % 32)) q
Split-1 V W p q h s = omega arith

pub byte_2 :
    (V W p q : ℕ)
    → q < 256
    → Split 2 V W p
    → (shift_in_char W (shift_in V q / 2 ^ 5 % 32)) / 2 ^ 3 % 256 ≡ p
byte_2 V W p q h s = omega arith

pub second_2 :
    (V W p q : ℕ)
    → q < 256
    → Split 2 V W p
    → (shift_in_char (shift_in_char W (shift_in V q / 2 ^ 5 % 32)) (shift_in V q / 2 ^ 0 % 32))
        / 2 ^ 0
        % 256
      ≡ q
second_2 V W p q h s = omega arith

pub byte_3 :
    (V W p q : ℕ)
    → q < 256
    → Split 3 V W p
    → (shift_in_char W (shift_in V q / 2 ^ 6 % 32)) / 2 ^ 2 % 256 ≡ p
byte_3 V W p q h s = omega arith

pub Split-3 :
    (V W p q : ℕ)
    → q < 256
    → Split 3 V W p
    → Split 1
        (shift_in V q)
        (shift_in_char (shift_in_char W (shift_in V q / 2 ^ 6 % 32)) (shift_in V q / 2 ^ 1 % 32))
        q
Split-3 V W p q h s = omega arith

pub byte_4 :
    (V W p q : ℕ)
    → q < 256
    → Split 4 V W p
    → (shift_in_char W (shift_in V q / 2 ^ 7 % 32)) / 2 ^ 1 % 256 ≡ p
byte_4 V W p q h s = omega arith

pub Split-4 :
    (V W p q : ℕ)
    → q < 256
    → Split 4 V W p
    → Split 2
        (shift_in V q)
        (shift_in_char (shift_in_char W (shift_in V q / 2 ^ 7 % 32)) (shift_in V q / 2 ^ 2 % 32))
        q
Split-4 V W p q h s = omega arith

pub flush_1 :
    (V W p : ℕ) → Split 1 V W p → shift_in_char W (V * 2 ^ 4 % word % 32) / 2 ^ 4 % 256 ≡ p
flush_1 V W p s = omega arith

pub flush_2 :
    (V W p : ℕ) → Split 2 V W p → shift_in_char W (V * 2 ^ 3 % word % 32) / 2 ^ 3 % 256 ≡ p
flush_2 V W p s = omega arith

pub flush_3 :
    (V W p : ℕ) → Split 3 V W p → shift_in_char W (V * 2 ^ 2 % word % 32) / 2 ^ 2 % 256 ≡ p
flush_3 V W p s = omega arith

pub flush_4 :
    (V W p : ℕ) → Split 4 V W p → shift_in_char W (V * 2 ^ 1 % word % 32) / 2 ^ 1 % 256 ≡ p
flush_4 V W p s = omega arith

pub decode_nil : (W bits : ℕ) → decode_from W bits [] ≡ some []
unfolding decode_from
decode_nil W bits = refl

pub nothing_left : (W V : ℕ) → decode_from W 0 (encode_from V 0 []) ≡ some []
unfolding decode_from encode_from
nothing_left W V = refl

pub flush_at_1 : (V : ℕ) → encode_from V 1 [] ≡ char_at (V * 2 ^ 4 % word % 32) ∷ []
unfolding encode_from
flush_at_1 V = refl

pub flush_at_2 : (V : ℕ) → encode_from V 2 [] ≡ char_at (V * 2 ^ 3 % word % 32) ∷ []
unfolding encode_from
flush_at_2 V = refl

pub flush_at_3 : (V : ℕ) → encode_from V 3 [] ≡ char_at (V * 2 ^ 2 % word % 32) ∷ []
unfolding encode_from
flush_at_3 V = refl

pub flush_at_4 : (V : ℕ) → encode_from V 4 [] ≡ char_at (V * 2 ^ 1 % word % 32) ∷ []
unfolding encode_from
flush_at_4 V = refl
