-- ===== src/Prelude/Text.antt =====
-- Text: membership of a whole string in a list, and the code points of a string.
use mathlib.Core.Bool.{Bool, true, false, ◌&&◌}
use mathlib.Core.List.{List, [], ◌∷◌}
use Prim.Native.String.{String}
use Prim.Native.Char.{code}
use Prim.Native.Nat.{ℕ}
use native.Mathlib.Omega.{arith}
use text.Mathlib.TextEquality.{eq_iff}
use text.Mathlib.Text.{◌==◌}
use mathlib.Core.Logic.{◌↔◌, ◌⊎◌, inl, inr}
use mathlib.Core.Path.{◌≡◌, refl, sym, subst}
use argus_monitor.Prelude.Lists.{any, In, here, there, any_In, In-any}
use argus_monitor.Prelude.Tests.{if◌then◌else◌, nat_eq, Bool-cases}

-- `xs.includes(s)`.
abbrev pub includes : List String → String → Bool
includes xs s = any (λ x. x == s) xs

pub includes_iff : (xs : List String) (s : String) → (includes xs s ≡ true) ↔ In s xs
includes_iff xs s = (λ h. found h, λ m. In-any (λ x. x == s) m ((eq_iff s s).1 refl))
  where
    found : includes xs s ≡ true → In s xs
    found h = let (a, m, e) = any_In (λ x. x == s) xs h in subst (λ t. In t xs) ((eq_iff a s).0 e) m

-- The code points of a string.
abbrev pub code_points : String → List ℕ
code_points String.[] = []
code_points (String.◌∷◌ first rest) = code first ∷ code_points rest

-- `[...new Set(xs)]`: the first occurrence of each string is kept.
unfoldable pub dedupe_from : List String → List String → List String
dedupe_from seen [] = []
dedupe_from seen (x ∷ xs) =
    let again = dedupe_from seen xs in
    let fresh = x ∷ dedupe_from (x ∷ seen) xs in if includes seen x then again else fresh

unfoldable pub dedupe : List String → List String
unfolding dedupe_from
dedupe xs = dedupe_from [] xs

dedupe_from_In : {s : String} (seen xs : List String) → In s (dedupe_from seen xs) → In s xs
unfolding dedupe_from
dedupe_from_In seen [] m = m
dedupe_from_In {s} seen (x ∷ xs) m = elim (Bool-cases (includes seen x)) [
  | inl old ↦ there (dedupe_from_In seen xs (rw old at m))
  | inr new ↦ fresh (dedupe_from_In (x ∷ seen) xs) (rw new at m)
]
  where
    fresh :
        (In s (dedupe_from (x ∷ seen) xs) → In s xs)
        → In s (x ∷ dedupe_from (x ∷ seen) xs)
        → In s (x ∷ xs)
    fresh ih (here e) = here e
    fresh ih (there n) = there (ih n)

In-dedupe_from :
    {s : String} (seen xs : List String) → In s xs → In s (dedupe_from seen xs) ⊎ In s seen
unfolding dedupe_from
In-dedupe_from seen [] m = elim m [ ]
In-dedupe_from seen (x ∷ xs) (here e) = elim (Bool-cases (includes seen x)) [
  | inl old ↦ inr (subst (λ t. In t seen) (sym e) ((includes_iff seen x).0 old))
  | inr new ↦ rw new (inl (here e))
]
In-dedupe_from {s} seen (x ∷ xs) (there m) = elim (Bool-cases (includes seen x)) [
  | inl old ↦ rw old (In-dedupe_from seen xs m)
  | inr new ↦ rw new (fresh (In-dedupe_from (x ∷ seen) xs m))
]
  where
    fresh :
        In s (dedupe_from (x ∷ seen) xs) ⊎ In s (x ∷ seen)
        → In s (x ∷ dedupe_from (x ∷ seen) xs) ⊎ In s seen
    fresh (inl n) = inl (there n)
    fresh (inr (here e)) = inl (here e)
    fresh (inr (there n)) = inr n

pub dedupe_iff : (xs : List String) (s : String) → In s (dedupe xs) ↔ In s xs
unfolding dedupe
dedupe_iff xs s = (dedupe_from_In [] xs, complete)
  where
    either : In s (dedupe_from [] xs) ⊎ In s [] → In s (dedupe_from [] xs)
    either (inl n) = n
    either (inr n) = elim n [ ]

    complete : In s xs → In s (dedupe_from [] xs)
    complete m = either (In-dedupe_from [] xs m)

-- Two texts, as lists of code points, are the same.
unfoldable pub same_text : List ℕ → List ℕ → Bool
same_text [] [] = true
same_text [] (d ∷ t) = false
same_text (c ∷ s) [] = false
same_text (c ∷ s) (d ∷ t) = nat_eq c d && same_text s t

pub same_text_iff : (s t : List ℕ) → (same_text s t ≡ true) ↔ (s ≡ t)
unfolding same_text
same_text_iff [] [] = ground arith
same_text_iff [] (d ∷ t) = ground arith
same_text_iff (c ∷ s) [] = ground arith
same_text_iff (c ∷ s) (d ∷ t) = ground (arith, same_text_iff s t)
