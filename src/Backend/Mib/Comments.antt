-- ===== src/Backend/Mib/Comments.antt =====
-- A text without its comments has none.
use argus_monitor.Prelude.{ℕ, ◌≡◌, refl, arith, List, [], ◌∷◌, false}
use argus_monitor.Backend.Mib.{
  Mode, outside, in_string, opening, in_comment, closing, starts_dash, strip_from, strip_comments,
}

-- The mode in which the result is read again.
abbrev again : Mode → Mode
again in_string = in_string
again _ = outside

-- Outside of strings and comments, what does not begin with a dash is kept so.
starts_dash-strip_from :
    (s : List ℕ) → starts_dash s ≡ false → starts_dash (strip_from outside s) ≡ false
unfolding strip_from
starts_dash-strip_from [] h = refl
starts_dash-strip_from (c ∷ s) h = ground arith

strip_from_idem :
    (mode : Mode) (s : List ℕ) → strip_from (again mode) (strip_from mode s) ≡ strip_from mode s
unfolding strip_from
strip_from_idem outside [] = refl
strip_from_idem in_string [] = refl
strip_from_idem opening [] = refl
strip_from_idem in_comment [] = refl
strip_from_idem closing [] = refl
strip_from_idem outside (c ∷ s) = ground (
  arith,
  starts_dash-strip_from s,
  strip_from_idem outside s,
  strip_from_idem in_string s,
  strip_from_idem opening s,
)
strip_from_idem in_string (c ∷ s) =
    ground (arith, strip_from_idem outside s, strip_from_idem in_string s)
strip_from_idem opening (c ∷ s) = strip_from_idem in_comment s
strip_from_idem in_comment (c ∷ s) =
    ground
      (arith, strip_from_idem outside s, strip_from_idem in_comment s, strip_from_idem closing s)
strip_from_idem closing (c ∷ s) = strip_from_idem outside s

-- Stripping the comments of a text twice is stripping them once, also where a comment stood between two
-- characters that now meet.
pub strip_comments_idem : (src : List ℕ) → strip_comments (strip_comments src) ≡ strip_comments src
unfolding strip_comments
strip_comments_idem src = strip_from_idem outside src
