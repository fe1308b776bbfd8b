-- ===== src/Backend/Mib/Resolution.antt =====
-- The resolution of the definitions ends, and resolves those that lead back to the known roots.
use argus_monitor.Prelude.{
  is_empty, ℕ, zero, suc, ◌≤◌, ◌<◌, ◌≡◌, ◌↔◌, inl, inr, refl, sym, subst, arith, String, some, List,
  [], ◌∷◌, true, false, not, length, all, all_In, all_of, All, In, here, there, Bool-cases,
  Option-cases,
}
use argus_monitor.Backend.Mib.{Names, base, lookup, has, Raw, settle_round, settle}
use argus_monitor.Backend.Mib.Tokens.{
  is_token, is_reference, Defined, root, by_raw, known, IsFull, resolve_from-known,
  resolve_tokens-none,
}
use argus_monitor.Backend.Mib.Rounds.{
  IsGrounded, missing, IsSettled, round-IsGrounded, round-missing, round-unchanged,
}

IsSettled-In :
    (names : Names) (rs : List Raw) {r : Raw}
    → All (IsSettled names) rs
    → In r rs
    → IsSettled names r
IsSettled-In names [] s m = elim m [ ]
IsSettled-In names (q ∷ rs) s (here e) = subst (IsSettled names) (sym e) s.0
IsSettled-In names (q ∷ rs) s (there m) = IsSettled-In names rs s.1 m

missing-le-length : (rs : List Raw) (names : Names) → missing rs names ≤ length rs
missing-le-length [] names = omega arith
missing-le-length (r ∷ rs) names = ground (arith, missing-le-length rs names)

module _ (raws : List Raw) where
  -- The loop ends, with every definition settled.
  settle-total :
      (fuel : ℕ) (names : Names)
      → missing raws names < fuel
      → IsGrounded raws names
      → (out : Names) × (settle fuel raws names ≡ some out)
        × IsGrounded raws out
        × All (IsSettled out) raws
  unfolding settle
  settle-total zero names lt g = absurd (omega arith)
  settle-total (suc fuel) names lt g =
      let next = (settle_round raws (names, false)).0 in
      let grounded = round-IsGrounded raws raws names false (λ r m. m) g in
      elim (Bool-cases (settle_round raws (names, false)).1) [
        | inl changed ↦
            let fewer = round-missing raws raws names false (λ r m. m) in
            let (out, e, g', settled) = settle-total fuel next (ground arith) grounded in
            (out, rw (changed, settle) e, g', settled)
        | inr unchanged ↦
            let (now, same, settled) = round-unchanged raws names false unchanged in
            (
              next,
              rw (unchanged, settle) refl,
              grounded,
              subst (λ n. All (IsSettled n) raws) (sym same) settled,
            )
      ]

  -- What is defined is resolved where every definition is settled.
  Defined-has :
      {n : String} (names : Names)
      → IsGrounded raws names
      → All (IsSettled names) raws
      → Defined raws n
      → has names n ≡ true
  Defined-has names g s (root {n} h) = elim (Option-cases (lookup base n)) [
    | inl no_root ↦ absurd (ground arith)
    | inr (oid, e) ↦ let f = g.extends n oid e in ground arith
  ]
  Defined-has names g s (by_raw {n} r m e full tokens each) = elim (IsSettled-In names raws s m) [
    | inl resolved ↦ subst (λ x. has names x ≡ true) e resolved
    | inr unknown ↦ absurd (
        let every = all_of (known names) r.tokens λ t i. ground (
          arith,
          all_In is_token tokens i,
          λ (d : is_reference t ≡ true). Defined-has names g s (each t i d),
        ) in
        let value = resolve_from-known names r.tokens [] g.full in
        let nothing = resolve_tokens-none names r unknown in ground arith)
  ]

IsFull-of : (names : Names) → all (λ e. not (is_empty e.1)) names ≡ true → IsFull names
IsFull-of [] h = tt
IsFull-of (e ∷ names) h = (ground arith, IsFull-of names (ground arith))

base-IsGrounded : (raws : List Raw) → IsGrounded raws base
base-IsGrounded raws = record {
  full = IsFull-of base refl;
  defined = λ n h. root h;
  extends = λ n oid h. h;
}

-- The loop over the definitions of a module ends, after one round more than there are definitions at
-- most; the names that it has resolved are then exactly those that a chain of definitions leads from
-- to the known roots, each definition by tokens alone and by one token at least.
pub settle_iff :
    (raws : List Raw)
    → (names : Names) × (settle (suc (length raws)) raws base ≡ some names)
      × ((n : String) → (has names n ≡ true) ↔ Defined raws n)
settle_iff raws =
    let bound = missing-le-length raws base in
    let (names, e, g, settled) =
      settle-total raws (suc (length raws)) base (omega arith) (base-IsGrounded raws) in
    (names, e, λ n. (g.defined n, Defined-has raws names g settled))
