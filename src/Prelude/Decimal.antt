-- ===== src/Prelude/Decimal.antt =====
-- Decimal numbers as texts: `String(n)`, and `Number(s)` of digits.
use Prim.Native.Nat.{ℕ, zero, suc, ◌+◌, ◌-◌, ◌*◌, ◌/◌, ◌%◌, ◌^◌, ◌≤◌, ◌<◌}
use mathlib.Core.Path.{◌≡◌, ◌∙◌, refl}
use mathlib.Core.Logic.{inl, inr}
use mathlib.Core.Bool.{Bool, true, ◌&&◌}
use mathlib.Core.List.{List, [], ◌∷◌}
use native.Mathlib.Omega.{arith}
use argus_monitor.Prelude.Tests.{ltb, leb, if◌then◌else◌, Bool-cases}
use argus_monitor.Prelude.Lists.{length, all}

-- The class `\d`.
abbrev pub is_digit : ℕ → Bool
is_digit c = leb 48 c && leb c 57

-- The number that digits spell behind `n`.
abbrev pub value_from : ℕ → List ℕ → ℕ
value_from n [] = n
value_from n (c ∷ s) = value_from (n * 10 + (c - 48)) s

abbrev pub number_of : List ℕ → ℕ
number_of s = value_from 0 s

-- A number has no more digits than units, so `n` rounds are enough for `n`.
unfoldable pub digits_from : ℕ → ℕ → List ℕ → List ℕ
digits_from zero n out = (48 + n) ∷ out
digits_from (suc rounds) n out =
    let more = digits_from rounds (n / 10) ((48 + n % 10) ∷ out) in
    if ltb n 10 then (48 + n) ∷ out else more

unfoldable pub to_text : ℕ → List ℕ
unfolding digits_from
to_text n = digits_from n n []

value-digits_from :
    (rounds n : ℕ) (out : List ℕ)
    → n ≤ rounds
    → value_from 0 (digits_from rounds n out) ≡ value_from n out
unfolding digits_from
value-digits_from zero n out h = ground arith
value-digits_from (suc rounds) n out h = elim (Bool-cases (ltb n 10)) [
  | inl last ↦ rw last (ground arith)
  | inr more ↦
      rw more
        (value-digits_from rounds (n / 10) ((48 + n % 10) ∷ out) (ground arith) ∙ (ground arith))
]

pub number_of-to_text : (n : ℕ) → number_of (to_text n) ≡ n
unfolding to_text
number_of-to_text n = value-digits_from n n [] (omega arith)

digits_from-all :
    (rounds n : ℕ) (out : List ℕ)
    → n ≤ rounds
    → all is_digit out ≡ true
    → all is_digit (digits_from rounds n out) ≡ true
unfolding digits_from
digits_from-all zero n out h d = ground arith
digits_from-all (suc rounds) n out h d = elim (Bool-cases (ltb n 10)) [
  | inl last ↦ rw last (ground arith)
  | inr more ↦
      rw more (digits_from-all rounds (n / 10) ((48 + n % 10) ∷ out) (ground arith) (ground arith))
]

pub to_text-all : (n : ℕ) → all is_digit (to_text n) ≡ true
unfolding to_text
to_text-all n = digits_from-all n n [] (omega arith) refl

length-digits_from :
    (rounds k n : ℕ) (out : List ℕ)
    → n ≤ rounds
    → n < 10 ^ suc k
    → length (digits_from rounds n out) ≤ suc k + length out
unfolding digits_from
length-digits_from zero k n out h lt = ground arith
length-digits_from (suc rounds) zero n out h lt = ground arith
length-digits_from (suc rounds) (suc k) n out h lt = elim (Bool-cases (ltb n 10)) [
  | inl last ↦ rw last (ground arith)
  | inr more ↦ rw more (
      omega (
        arith,
        length-digits_from rounds k (n / 10) ((48 + n % 10) ∷ out) (ground arith) (tenth lt),
      ))
]
  where
    tenth : n < 10 ^ suc (suc k) → n / 10 < 10 ^ suc k
    tenth h = grind arith

-- A number below a power of ten has no more digits than the power.
pub length-to_text : (k n : ℕ) → n < 10 ^ suc k → length (to_text n) ≤ suc k
unfolding to_text
length-to_text k n h = omega (arith, length-digits_from n k n [] (omega arith) h)
