-- ===== src/Core/Base32/Roundtrip.antt =====
-- Decoding an encoded buffer gives the buffer back. The encoder and the decoder are followed side by
-- side: the bits that the encoder holds back and those that the decoder waits on are the two parts
-- of one byte.
use argus_monitor.Prelude.{
  ℕ, suc, ◌+◌, ◌-◌, ◌*◌, ◌/◌, ◌%◌, ◌^◌, ◌<◌, ◌≡◌, refl, ◌∙◌, arith, some, List, [], ◌∷◌, ltb, Bool,
  true, false, ◌&&◌, not, nat_eq, filter, passes_under, passes_under_lem, if◌then◌else◌, All,
  All-append,
}
use argus_monitor.Core.Base32.{
  word, char_at, drain, drained, shift_in, encode_from, base32_encode, shift_in_char, decode_from,
  base32_decode, upper, is_space, upper_all, strip_padding, clean,
}
use argus_monitor.Core.Base32.Steps.{
  Split, byte_1, byte_2, byte_3, byte_4, decode_byte, decode_nil, decode_short, encode_at_0,
  encode_at_1, encode_at_2, encode_at_3, encode_at_4, flush_1, flush_2, flush_3, flush_4,
  flush_at_1, flush_at_2, flush_at_3, flush_at_4, mask_lt, nothing_left, second_2, Split-0, Split-1,
  Split-3, Split-4,
}

abbrev pub AllBytes : List ℕ → Type 0
AllBytes [] = Unit {0}
AllBytes (b ∷ bs) = (b < 256) × AllBytes bs

mutual
  from_0 : (bs : List ℕ) (V W : ℕ) → AllBytes bs → decode_from W 0 (encode_from V 0 bs) ≡ some bs
  from_0 [] V W h = nothing_left W V
  from_0 (q ∷ bs) V W (h, hs) =
      let V' : ℕ = shift_in V q in
      rw (encode_at_0 V q bs) (
        decode_short W (V' / 2 ^ 3 % 32) (encode_from V' 3 bs) (mask_lt (V' / 2 ^ 3)) 0
          (omega arith)
        ∙ from_3 bs V' (shift_in_char W (V' / 2 ^ 3 % 32)) q hs (Split-0 V W q h))

  from_1 :
      (bs : List ℕ) (V W p : ℕ)
      → AllBytes bs
      → Split 1 V W p
      → decode_from W 7 (encode_from V 1 bs) ≡ some (p ∷ bs)
  from_1 [] V W p h s = rw (flush_at_1 V) (
      decode_byte W (V * 2 ^ 4 % word % 32) [] (mask_lt (V * 2 ^ 4 % word)) 7 p [] (omega arith)
        (flush_1 V W p s) (decode_nil (shift_in_char W (V * 2 ^ 4 % word % 32)) 4))
  from_1 (q ∷ bs) V W p (h, hs) s =
      let V' : ℕ = shift_in V q in
      let W' : ℕ = shift_in_char W (V' / 2 ^ 4 % 32) in
      rw (encode_at_1 V q bs) (
        decode_byte W (V' / 2 ^ 4 % 32) (encode_from V' 4 bs) (mask_lt (V' / 2 ^ 4)) 7 p (q ∷ bs)
          (omega arith) (byte_1 V W p q h s) (from_4 bs V' W' q hs (Split-1 V W p q h s)))

  from_2 :
      (bs : List ℕ) (V W p : ℕ)
      → AllBytes bs
      → Split 2 V W p
      → decode_from W 6 (encode_from V 2 bs) ≡ some (p ∷ bs)
  from_2 [] V W p h s = rw (flush_at_2 V) (
      decode_byte W (V * 2 ^ 3 % word % 32) [] (mask_lt (V * 2 ^ 3 % word)) 6 p [] (omega arith)
        (flush_2 V W p s) (decode_nil (shift_in_char W (V * 2 ^ 3 % word % 32)) 3))
  from_2 (q ∷ bs) V W p (h, hs) s =
      let V' : ℕ = shift_in V q in
      let W' : ℕ = shift_in_char W (V' / 2 ^ 5 % 32) in
      rw (encode_at_2 V q bs) (
        decode_byte W (V' / 2 ^ 5 % 32) (char_at (V' / 2 ^ 0 % 32) ∷ encode_from V' 0 bs)
          (mask_lt (V' / 2 ^ 5)) 6 p (q ∷ bs) (omega arith) (byte_2 V W p q h s)
          (decode_byte W' (V' / 2 ^ 0 % 32) (encode_from V' 0 bs) (mask_lt (V' / 2 ^ 0)) 3 q bs
            (omega arith) (second_2 V W p q h s)
            (from_0 bs V' (shift_in_char W' (V' / 2 ^ 0 % 32)) hs)))

  from_3 :
      (bs : List ℕ) (V W p : ℕ)
      → AllBytes bs
      → Split 3 V W p
      → decode_from W 5 (encode_from V 3 bs) ≡ some (p ∷ bs)
  from_3 [] V W p h s = rw (flush_at_3 V) (
      decode_byte W (V * 2 ^ 2 % word % 32) [] (mask_lt (V * 2 ^ 2 % word)) 5 p [] (omega arith)
        (flush_3 V W p s) (decode_nil (shift_in_char W (V * 2 ^ 2 % word % 32)) 2))
  from_3 (q ∷ bs) V W p (h, hs) s =
      let V' : ℕ = shift_in V q in
      let W' : ℕ = shift_in_char W (V' / 2 ^ 6 % 32) in
      rw (encode_at_3 V q bs) (
        decode_byte W (V' / 2 ^ 6 % 32) (char_at (V' / 2 ^ 1 % 32) ∷ encode_from V' 1 bs)
          (mask_lt (V' / 2 ^ 6)) 5 p (q ∷ bs) (omega arith) (byte_3 V W p q h s)
          (decode_short W' (V' / 2 ^ 1 % 32) (encode_from V' 1 bs) (mask_lt (V' / 2 ^ 1)) 2
              (omega arith)
            ∙ from_1 bs V' (shift_in_char W' (V' / 2 ^ 1 % 32)) q hs (Split-3 V W p q h s)))

  from_4 :
      (bs : List ℕ) (V W p : ℕ)
      → AllBytes bs
      → Split 4 V W p
      → decode_from W 4 (encode_from V 4 bs) ≡ some (p ∷ bs)
  from_4 [] V W p h s = rw (flush_at_4 V) (
      decode_byte W (V * 2 ^ 1 % word % 32) [] (mask_lt (V * 2 ^ 1 % word)) 4 p [] (omega arith)
        (flush_4 V W p s) (decode_nil (shift_in_char W (V * 2 ^ 1 % word % 32)) 1))
  from_4 (q ∷ bs) V W p (h, hs) s =
      let V' : ℕ = shift_in V q in
      let W' : ℕ = shift_in_char W (V' / 2 ^ 7 % 32) in
      rw (encode_at_4 V q bs) (
        decode_byte W (V' / 2 ^ 7 % 32) (char_at (V' / 2 ^ 2 % 32) ∷ encode_from V' 2 bs)
          (mask_lt (V' / 2 ^ 7)) 4 p (q ∷ bs) (omega arith) (byte_4 V W p q h s)
          (decode_short W' (V' / 2 ^ 2 % 32) (encode_from V' 2 bs) (mask_lt (V' / 2 ^ 2)) 1
              (omega arith)
            ∙ from_2 bs V' (shift_in_char W' (V' / 2 ^ 2 % 32)) q hs (Split-4 V W p q h s)))

-- A character that cleaning leaves alone.
abbrev is_plain : ℕ → Bool
is_plain c = nat_eq (upper c) c && not (is_space c) && not (nat_eq c 61)

plain_table : passes_under (λ i. is_plain (char_at i)) 32 ≡ true
unfolding passes_under char_at upper is_space
plain_table = refl

IsPlain : ℕ → Type 0
IsPlain c = is_plain c ≡ true

char_at-IsPlain : (n : ℕ) → IsPlain (char_at (n % 32))
unfolding IsPlain
char_at-IsPlain n = passes_under_lem (λ i. is_plain (char_at i)) 32 (n % 32) (mask_lt n) plain_table

drain-IsPlain : (value bits : ℕ) → All IsPlain (drain value bits)
unfolding drain
drain-IsPlain value (suc (suc (suc (suc (suc bits))))) =
    (char_at-IsPlain (value / 2 ^ bits), drain-IsPlain value bits)
drain-IsPlain value _ = tt

when-IsPlain : (b : Bool) (c : ℕ) → IsPlain c → All IsPlain (if b then c ∷ [] else [])
when-IsPlain true c h = (h, tt)
when-IsPlain false c h = tt

encode_from-IsPlain : (value bits : ℕ) (bytes : List ℕ) → All IsPlain (encode_from value bits bytes)
unfolding encode_from
encode_from-IsPlain value bits [] =
    when-IsPlain (ltb 0 bits) _ (char_at-IsPlain (value * 2 ^ (5 - bits) % word))
encode_from-IsPlain value bits (byte ∷ bytes) =
    All-append IsPlain (drain (shift_in value byte) (bits + 8)) _
      (drain-IsPlain (shift_in value byte) (bits + 8))
      (encode_from-IsPlain (shift_in value byte) (drained (bits + 8)) bytes)

upper_plain : (s : List ℕ) → All IsPlain s → upper_all s ≡ s
unfolding IsPlain
upper_plain [] h = refl
upper_plain (c ∷ s) (p, h) = ground (arith, upper_plain s h)

strip_plain : (s : List ℕ) → All IsPlain s → strip_padding s ≡ s
unfolding IsPlain strip_padding
strip_plain [] h = refl
strip_plain (c ∷ s) (p, h) = ground (arith, strip_plain s h)

filter_plain : (s : List ℕ) → All IsPlain s → filter (λ c. not (is_space c)) s ≡ s
unfolding IsPlain
filter_plain [] h = refl
filter_plain (c ∷ s) (p, h) = ground (arith, filter_plain s h)

clean_plain : (s : List ℕ) → All IsPlain s → clean s ≡ s
unfolding clean
clean_plain s h = rw (upper_plain s h, strip_plain s h) (filter_plain s h)

decode_lem : (s : List ℕ) → base32_decode s ≡ decode_from 0 0 (clean s)
unfolding base32_decode
decode_lem s = refl

encode_lem : (bytes : List ℕ) → base32_encode bytes ≡ encode_from 0 0 bytes
unfolding base32_encode
encode_lem bytes = refl

-- Decoding the base32 text of any bytes gives back the bytes.
pub base32_decode-encode :
    (bytes : List ℕ) → AllBytes bytes → base32_decode (base32_encode bytes) ≡ some bytes
base32_decode-encode bytes h =
    rw
      (
        encode_lem bytes,
        decode_lem,
        clean_plain (encode_from 0 0 bytes) (encode_from-IsPlain 0 0 bytes),
      )
      (from_0 bytes 0 0 h)
