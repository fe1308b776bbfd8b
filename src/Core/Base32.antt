-- ===== src/Core/Base32.antt =====
-- RFC 4648 base32, packages/core/src/totp.ts lines 19 to 64. Bytes and characters are numbers. The
-- 32-bit accumulator is kept as its bit pattern, a number below 2 ^ 32; its upper bits are never
-- cleared, as in the source. Letters are raised as ASCII: the case maps of other scripts are not
-- modelled.
pub mod Steps
pub mod Roundtrip
pub mod Errors
pub mod Tolerance
use argus_monitor.Prelude.{
  ℕ, zero, suc, ◌+◌, ◌-◌, ◌*◌, ◌/◌, ◌%◌, ◌^◌, Option, none, some, List, [], ◌∷◌, ◌++◌, Bool, true,
  false, ◌&&◌, ◌||◌, filter, not, leb, ltb, nat_eq, get_or, code_points, if◌then◌else◌,
}

abbrev pub word : ℕ
word = 4294967296

abbrev pub alphabet : List ℕ
alphabet = code_points "ABCDEFGHIJKLMNOPQRSTUVWXYZ234567"

-- `BASE32_ALPHABET[i]`, at an index that is masked by 31.
unfoldable pub char_at : ℕ → ℕ
char_at i = get_or alphabet i 0

-- The `while (bits >= 5)` loop at `bits` bits: the characters that it appends.
unfoldable pub drain : ℕ → ℕ → List ℕ
drain value (suc (suc (suc (suc (suc bits))))) = char_at (value / 2 ^ bits % 32) ∷ drain value bits
drain value _ = []

-- The bits that the loop leaves.
unfoldable pub drained : ℕ → ℕ
drained (suc (suc (suc (suc (suc bits))))) = drained bits
drained bits = bits

-- `(value << 8) | byte`.
abbrev pub shift_in : ℕ → ℕ → ℕ
shift_in value byte = (value * 256 + byte) % word

-- The loop over the bytes, from an accumulator, and the flush.
unfoldable pub encode_from : ℕ → ℕ → List ℕ → List ℕ
unfolding drain drained
encode_from value bits [] =
    if ltb 0 bits then char_at (value * 2 ^ (5 - bits) % word % 32) ∷ [] else []
encode_from value bits (byte ∷ bytes) =
    drain (shift_in value byte) (bits + 8)
    ++ encode_from (shift_in value byte) (drained (bits + 8)) bytes

unfoldable pub base32_encode : List ℕ → List ℕ
unfolding encode_from
base32_encode bytes = encode_from 0 0 bytes

-- `toUpperCase` on an ASCII character.
unfoldable pub upper : ℕ → ℕ
upper c = if leb 97 c && leb c 122 then c - 32 else c

-- The class `\s`.
unfoldable pub is_space : ℕ → Bool
is_space c =
    leb 9 c && leb c 13
    || nat_eq c 32
    || nat_eq c 160
    || nat_eq c 0x1680
    || leb 0x2000 c && leb c 0x200a
    || nat_eq c 0x2028
    || nat_eq c 0x2029
    || nat_eq c 0x202f
    || nat_eq c 0x205f
    || nat_eq c 0x3000
    || nat_eq c 0xfeff

-- Whether a text is "=" to its end.
unfoldable pub is_padding : List ℕ → Bool
is_padding [] = true
is_padding (c ∷ s) = nat_eq c 61 && is_padding s

-- `replace(/=+$/g, "")`.
unfoldable pub strip_padding : List ℕ → List ℕ
unfolding is_padding
strip_padding [] = []
strip_padding (c ∷ s) = let rest = c ∷ strip_padding s in if is_padding (c ∷ s) then [] else rest

abbrev pub upper_all : List ℕ → List ℕ
upper_all [] = []
upper_all (c ∷ s) = upper c ∷ upper_all s

unfoldable pub clean : List ℕ → List ℕ
unfolding upper is_space strip_padding
clean s = filter (λ c. not (is_space c)) (strip_padding (upper_all s))

-- `indexOf`, with `none` for -1.
unfoldable pub index_from : ℕ → List ℕ → ℕ → Option ℕ
index_from i [] char = none
index_from i (c ∷ cs) char = if nat_eq c char then some i else index_from (i + 1) cs char

unfoldable pub index_of : ℕ → Option ℕ
unfolding index_from
index_of char = index_from 0 alphabet char

-- `(value << 5) | idx`.
abbrev pub shift_in_char : ℕ → ℕ → ℕ
shift_in_char value idx = (value * 32 + idx) % word

-- The loop over the characters; `none` is the error that it throws.
unfoldable pub decode_from : ℕ → ℕ → List ℕ → Option (List ℕ)
decode_from value bits [] = some []
decode_from value bits (char ∷ chars) = elim (index_of char) [
  | none ↦ none
  | some idx ↦
      let next : ℕ = shift_in_char value idx in
      if leb 8 (bits + 5)
      then elim (decode_from next (bits + 5 - 8) chars) [
        | none ↦ none
        | some bytes ↦ some ((next / 2 ^ (bits + 5 - 8) % 256) ∷ bytes)
      ]
      else decode_from next (bits + 5) chars
]

unfoldable pub base32_decode : List ℕ → Option (List ℕ)
unfolding decode_from clean index_of
base32_decode s = decode_from 0 0 (clean s)
