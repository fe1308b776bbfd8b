-- ===== src/Core/Envelope/Format.antt =====
-- An envelope is split into the parts that it was joined of.
use argus_monitor.Prelude.{
  ℕ, ◌≡◌, refl, ap, ◌∙◌, arith, List, [], ◌∷◌, ◌++◌, Bool, true, not, all, nat_eq, is_digit,
  to_text, to_text-all,
}
use argus_monitor.Core.Envelope.{Text, join, split}

-- No dot.
abbrev pub lacks_dot : Text → Bool
lacks_dot = all (λ c. not (nat_eq c 46))

split_whole : (p : Text) → lacks_dot p ≡ true → split p ≡ p ∷ []
unfolding split
split_whole [] h = refl
split_whole (c ∷ p) h = ground (arith, split_whole p)

split-append : (p s : Text) → lacks_dot p ≡ true → split (p ++ 46 ∷ s) ≡ p ∷ split s
unfolding split
split-append [] s h = refl
split-append (c ∷ p) s h = ground (arith, split-append p s)

-- The parts are found again, if none has a dot and there is one.
pub split-join :
    (p : Text) (parts : List Text)
    → all lacks_dot (p ∷ parts) ≡ true
    → split (join (p ∷ parts)) ≡ p ∷ parts
unfolding join
split-join p [] h = split_whole p (ground arith)
split-join p (q ∷ parts) h =
    split-append p (join (q ∷ parts)) (ground arith)
    ∙ ap (λ rest. p ∷ rest) (split-join q parts (ground arith))

digits_lacks_dot : (s : Text) → all is_digit s ≡ true → lacks_dot s ≡ true
digits_lacks_dot [] h = refl
digits_lacks_dot (c ∷ s) h = ground (arith, digits_lacks_dot s)

pub to_text-lacks_dot : (n : ℕ) → lacks_dot (to_text n) ≡ true
to_text-lacks_dot n = digits_lacks_dot (to_text n) (to_text-all n)
