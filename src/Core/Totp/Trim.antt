-- ===== src/Core/Totp/Trim.antt =====
-- `trim` of packages/core/src/totp.ts: nothing is left to trim.
use argus_monitor.Prelude.{
  ℕ, ◌≡◌, refl, ap, ◌∙◌, inl, inr, List, [], ◌∷◌, ◌&&◌, Bool-cases, is_empty,
}
use argus_monitor.Core.Base32.{is_space}
use argus_monitor.Core.Totp.{trim_start, trim_end, trim}

trim_end_idem : (s : List ℕ) → trim_end (trim_end s) ≡ trim_end s
unfolding trim_end
trim_end_idem [] = refl
trim_end_idem (c ∷ s) =
    let ih = trim_end_idem s in
    elim (Bool-cases (is_space c && is_empty (trim_end s))) [
      | inl h ↦ rw h refl
      | inr h ↦ rw (h, trim_end, ih, h) refl
    ]

-- What is left begins with no white space.
trim_start-trim_end : (s : List ℕ) → trim_start (trim_end (trim_start s)) ≡ trim_end (trim_start s)
unfolding trim_start trim_end
trim_start-trim_end [] = refl
trim_start-trim_end (c ∷ s) =
    let ih = trim_start-trim_end s in
    elim (Bool-cases (is_space c)) [
      | inl h ↦ rw h ih
      | inr h ↦ rw (h, trim_end, h, trim_start, h) refl
    ]

-- To trim a text again changes nothing.
pub trim_idem : (s : List ℕ) → trim (trim s) ≡ trim s
unfolding trim
trim_idem s = ap trim_end (trim_start-trim_end s) ∙ trim_end_idem (trim_start s)

pub trim_nil : trim [] ≡ []
unfolding trim trim_start trim_end
trim_nil = refl
