-- ===== src/Core/Totp/Codes.antt =====
-- A code that was generated is accepted.
use argus_monitor.Prelude.{
  ℕ, zero, suc, ◌+◌, ◌-◌, ◌%◌, ◌^◌, ◌≤◌, ◌<◌, ◌≡◌, inl, inr, refl, sym, ap, ◌∙◌, subst, arith, some,
  List, [], ◌∷◌, ◌++◌, true, false, all, length, length-append, is_empty, is_digit, to_text,
  to_text-all, length-to_text, Option-cases,
}
use argus_monitor.Core.Base32.{is_space, base32_decode}
use argus_monitor.Core.Totp.{
  trim_start, trim_end, trim, truncated, zeros, pad_start, counter_bytes, counter_of, hotp,
  totp_code, verify_totp,
}
use argus_monitor.Core.Totp.Window.{Accepts, verify_totp_iff}

length-zeros : (n : ℕ) → length (zeros n) ≡ n
length-zeros zero = refl
length-zeros (suc n) = ap suc (length-zeros n)

length-pad_start :
    (digits : ℕ) (s : List ℕ) → length s ≤ digits → length (pad_start digits s) ≡ digits
unfolding pad_start
length-pad_start digits s h =
    length-append (zeros (digits - length s)) s ∙ omega (arith, length-zeros (digits - length s))

all-zeros : (n : ℕ) (s : List ℕ) → all is_digit s ≡ true → all is_digit (zeros n ++ s) ≡ true
all-zeros zero s h = h
all-zeros (suc n) s h = ground (arith, all-zeros n s h)

-- Digits are not white space.
trim_start_digits : (s : List ℕ) → all is_digit s ≡ true → trim_start s ≡ s
unfolding trim_start is_space
trim_start_digits [] h = refl
trim_start_digits (c ∷ s) h = ground arith

trim_end_digits : (s : List ℕ) → all is_digit s ≡ true → trim_end s ≡ s
unfolding trim_end is_space
trim_end_digits [] h = refl
trim_end_digits (c ∷ s) h = ground (arith, trim_end_digits s)

trim_digits : (s : List ℕ) → all is_digit s ≡ true → trim s ≡ s
unfolding trim
trim_digits s h = rw (trim_start_digits s h) (trim_end_digits s h)

not_empty : (s : List ℕ) {k : ℕ} → length s ≡ suc k → is_empty s ≡ false
not_empty [] h = absurd (omega arith)
not_empty (c ∷ s) h = refl

power_pos : (k : ℕ) → 0 < 10 ^ k
power_pos zero = omega arith
power_pos (suc k) = grind (arith, power_pos k)

module _ (hmac : List ℕ → List ℕ → List ℕ) where
  hotp_digits :
      (key : List ℕ) (counter digits : ℕ) → all is_digit (hotp hmac key counter digits) ≡ true
  unfolding hotp pad_start
  hotp_digits key counter digits =
      let n = truncated (hmac key (counter_bytes counter)) % 10 ^ digits in
      all-zeros (digits - length (to_text n)) (to_text n) (to_text-all n)

  -- A code has as many digits as were asked for, if one at least.
  pub length-hotp : (key : List ℕ) (counter k : ℕ) → length (hotp hmac key counter (suc k)) ≡ suc k
  unfolding hotp
  length-hotp key counter k =
      let n = truncated (hmac key (counter_bytes counter)) in
      let small : n % 10 ^ suc k < 10 ^ suc k = grind (arith, power_pos (suc k)) in
      length-pad_start (suc k) (to_text (n % 10 ^ suc k)) (length-to_text k (n % 10 ^ suc k) small)

  totp_code-hotp :
      (secret code : List ℕ) (time step_sec digits : ℕ)
      → totp_code hmac secret time step_sec digits ≡ some code
      → (key : List ℕ) × (base32_decode secret ≡ some key)
        × (hotp hmac key (counter_of time step_sec) digits ≡ code)
  unfolding totp_code
  totp_code-hotp secret code time step_sec digits e = elim (Option-cases (base32_decode secret)) [
    | inl wrong ↦ absurd (let f = (rw wrong at e) in ground arith)
    | inr (key, d) ↦ (key, d, (let f = (rw d at e) in ground arith))
  ]

  code-Accepts :
      (key code : List ℕ) (made checked window k : ℕ)
      → checked ≤ made + window
      → made ≤ checked + window
      → hotp hmac key made (suc k) ≡ code
      → Accepts hmac key (trim code) checked window (suc k)
  code-Accepts key code made checked window k l u e =
      let digits : all is_digit code ≡ true =
        subst (λ s. all is_digit s ≡ true) e (hotp_digits key made (suc k)) in
      let size : length code ≡ suc k = subst (λ s. length s ≡ suc k) e (length-hotp key made k) in
      let same = trim_digits code digits in
      record {
        size = rw same size;
        digits_only = rw same digits;
        shown = rw same (not_empty code size);
        step = made;
        not_early = l;
        not_late = u;
        code = e ∙ sym same;
      }

  -- A code of one digit or more that was made for a secret at one instant is accepted at another, as
  -- long as the two are no more time steps apart than the window, and the check is not earlier than
  -- the window.
  pub verify_totp-totp_code :
      (secret code : List ℕ) (made checked window step_sec k : ℕ)
      → totp_code hmac secret made step_sec (suc k) ≡ some code
      → window ≤ counter_of checked step_sec
      → counter_of checked step_sec ≤ counter_of made step_sec + window
      → counter_of made step_sec ≤ counter_of checked step_sec + window
      → verify_totp hmac secret code checked window step_sec (suc k) ≡ some true
  verify_totp-totp_code secret code made checked window step_sec k e early l u =
      let (key, d, h) = totp_code-hotp secret code made step_sec (suc k) e in
      let (b, answer, iff) =
        verify_totp_iff hmac secret key code checked window step_sec (suc k) d early in
      let yes' = iff.1 (
        code-Accepts key code (counter_of made step_sec) (counter_of checked step_sec) window k l u
          h) in
      answer ∙ ap some yes'
