-- ===== src/Core/Totp/Window.antt =====
-- Which codes are accepted.
use argus_monitor.Prelude.{
  ℕ, zero, suc, ◌+◌, ◌-◌, ◌*◌, ◌≤◌, ◌<◌, ◌≡◌, ◌↔◌, ◌⊎◌, inl, inr, refl, sym, subst, arith, some,
  List, Bool, true, false, ◌||◌, all, length, leb, le→leb, nat_eq, nat_eq_iff, is_empty, is_digit,
  same_text, same_text_iff, Bool-cases,
}
use argus_monitor.Core.Base32.{base32_decode}
use argus_monitor.Core.Totp.{trim, counter_of, hotp, match_steps, is_well_formed, verify_totp}

module _ (hmac : List ℕ → List ℕ → List ℕ) where
  module _ (key submitted : List ℕ) (counter window digits : ℕ) (h : window ≤ counter) where
    -- One of the candidates that are left is what was submitted.
    Hits : ℕ → ℕ → Type 0
    Hits rounds ahead =
        (k : ℕ) × (ahead ≤ k)
        × (k < ahead + rounds)
        × (hotp hmac key (counter + k - window) digits ≡ submitted)

    match_steps-Hits :
        (rounds ahead : ℕ) (matched : Bool)
        → (b : Bool) × (match_steps hmac key submitted counter window digits rounds ahead matched
            ≡ some b)
          × (b ≡ true → (matched ≡ true) ⊎ Hits rounds ahead)
          × ((matched ≡ true) ⊎ Hits rounds ahead → b ≡ true)
    unfolding match_steps Hits
    match_steps-Hits zero ahead matched = (
      matched,
      refl,
      λ e. inl e,
      λ s. elim s [ inl e ↦ e | inr (k, l, u, e) ↦ absurd (omega arith) ],
    )
    match_steps-Hits (suc rounds) ahead matched =
        let candidate = hotp hmac key (counter + ahead - window) digits in
        let reached : leb window (counter + ahead) ≡ true =
          le→leb window (counter + ahead) (omega arith) in
        let (b, e, sound, complete) =
          match_steps-Hits rounds (ahead + 1) (matched || same_text candidate submitted) in
        (
          b,
          rw (reached, match_steps) e,
          λ t. elim (sound t) [
            | inl now ↦ elim (Bool-cases matched) [
              | inl before ↦ inl before
              | inr first ↦ inr (
                ahead,
                omega arith,
                omega arith,
                (same_text_iff candidate submitted).0 (ground arith),
              )
            ]
            | inr (k, l, u, s) ↦ inr (k, omega arith, omega arith, s)
          ],
          λ s. complete (elim s [
            | inl before ↦ inl (ground arith)
            | inr (k, l, u, s) ↦ elim (Bool-cases (nat_eq k ahead)) [
              | inl same ↦ inl (
                  let c = (same_text_iff candidate submitted).1 (
                    subst (λ i. hotp hmac key (counter + i - window) digits ≡ submitted)
                      ((nat_eq_iff k ahead).0 same) s) in
                  ground arith)
              | inr other ↦ inr (k, ground arith, omega arith, s)
            ]
          ]),
        )

  -- A code for a counter at most a window away.
  pub record Accepts (key trimmed : List ℕ) (counter window digits : ℕ) : Type 0 where
    pub size : length trimmed ≡ digits
    pub digits_only : all is_digit trimmed ≡ true
    pub shown : is_empty trimmed ≡ false
    pub step : ℕ
    pub not_early : counter ≤ step + window
    pub not_late : step ≤ counter + window
    pub code : hotp hmac key step digits ≡ trimmed

  Accepts-Hits :
      (key trimmed : List ℕ) (counter window digits : ℕ) (early : window ≤ counter)
      → is_well_formed trimmed digits ≡ true
      → Hits key trimmed counter window digits early (2 * window + 1) 0
      → Accepts key trimmed counter window digits
  unfolding Hits
  Accepts-Hits key trimmed counter window digits early w (k, l, u, e) = record {
    size = (nat_eq_iff (length trimmed) digits).0 (ground arith);
    digits_only = ground arith;
    shown = ground arith;
    step = counter + k - window;
    not_early = omega arith;
    not_late = omega arith;
    code = e;
  }

  Hits-Accepts :
      (key trimmed : List ℕ) (counter window digits : ℕ) (early : window ≤ counter)
      → Accepts key trimmed counter window digits
      → Hits key trimmed counter window digits early (2 * window + 1) 0
  unfolding Hits
  Hits-Accepts key trimmed counter window digits early a =
      let k = a.step + window - counter in
      let same : counter + k - window ≡ a.step =
        (let l = a.not_early in let u = a.not_late in omega arith) in
      (
        k,
        omega arith,
        (let l = a.not_early in let u = a.not_late in omega arith),
        subst (λ c. hotp hmac key c digits ≡ trimmed) (sym same) a.code,
      )

  -- The check of a token against a secret that decodes, at an instant later than the window, answers;
  -- it accepts exactly the tokens that are, without the white space around them, as many digits as a
  -- code has, and the code of a time step that is at most the window away.
  pub verify_totp_iff :
      (secret key token : List ℕ) (time window step_sec digits : ℕ)
      → base32_decode secret ≡ some key
      → window ≤ counter_of time step_sec
      → (b : Bool) × (verify_totp hmac secret token time window step_sec digits ≡ some b)
        × ((b ≡ true) ↔ Accepts key (trim token) (counter_of time step_sec) window digits)
  unfolding verify_totp
  verify_totp_iff secret key token time window step_sec digits d early =
      elim (Bool-cases (is_well_formed (trim token) digits)) [
        | inl good ↦
            let (b, e, sound, complete) =
              match_steps-Hits key (trim token) (counter_of time step_sec) window digits early
                (2 * window + 1) 0 false in
            (
              b,
              rw (good, d) e,
              (
                λ t. elim (sound t) [
                  | inl impossible ↦ absurd (ground arith)
                  | inr hit ↦
                      Accepts-Hits key (trim token) (counter_of time step_sec) window digits early
                        good hit
                ],
                λ a. complete (
                    inr (
                      Hits-Accepts key (trim token) (counter_of time step_sec) window digits early
                        a)),
              ),
            )
        | inr bad ↦ (
          false,
          rw bad refl,
          (
            λ t. absurd (ground arith),
            λ a. absurd (
                let s = (nat_eq_iff (length (trim token)) digits).1 a.size in
                let o = a.digits_only in let f = a.shown in ground arith),
          ),
        )
      ]
