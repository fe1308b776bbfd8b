-- ===== src/Backend/Mib/Rounds.antt =====
-- What a round of the loop over the definitions keeps, and when it changes nothing.
use argus_monitor.Prelude.{
  is_empty, ℕ, ◌+◌, ◌≤◌, ◌<◌, ◌≡◌, ◌⊎◌, inl, inr, refl, ap, ◌∙◌, subst, arith, String, none, some,
  List, [], ◌∷◌, Bool, true, false, ◌==◌, eq_iff, all, all_In, all_of, All, In, here, there,
  Bool-cases, Option-cases, if◌then◌else◌,
}
use argus_monitor.Backend.Mib.{
  Oid, Names, base, has, assign, Raw, resolve_tokens, settle_one, settle_round,
}
use argus_monitor.Backend.Mib.Tokens.{
  is_token, is_reference, Defined, by_raw, known, IsFull, resolve_from-known, resolve_from-full,
  lookup-assign, IsFull-assign, Extends,
}

-- The definitions that are not resolved.
abbrev pub missing : List Raw → Names → ℕ
missing [] names = 0
missing (r ∷ rs) names = (if has names r.name then 0 else 1) + missing rs names

missing-assign :
    (rs : List Raw) (names : Names) (n : String) (oid : Oid)
    → has names n ≡ false
    → missing rs (assign names n oid) ≤ missing rs names
missing-assign [] names n oid new = omega arith
missing-assign (r ∷ rs) names n oid new = ground (
  arith,
  lookup-assign names n r.name oid new,
  eq_iff n r.name,
  missing-assign rs names n oid new,
)

missing-assign_In :
    (rs : List Raw) (r : Raw) (names : Names) (oid : Oid)
    → In r rs
    → has names r.name ≡ false
    → missing rs (assign names r.name oid) < missing rs names
missing-assign_In [] r names oid m new = elim m [ ]
missing-assign_In (q ∷ rs) r names oid (here e) new = ground (
  arith,
  ap (λ (x : Raw). x.name) e,
  lookup-assign names r.name q.name oid new,
  eq_iff r.name q.name,
  missing-assign rs names r.name oid new,
)
missing-assign_In (q ∷ rs) r names oid (there m) new = ground (
  arith,
  lookup-assign names r.name q.name oid new,
  eq_iff r.name q.name,
  missing-assign_In rs r names oid m new,
)

abbrev pub flag : Bool → ℕ
flag b = if b then 1 else 0

-- A definition that is resolved, or cannot be yet.
abbrev pub IsSettled : Names → Raw → Type 0
IsSettled names r = (has names r.name ≡ true) ⊎ (resolve_tokens r.tokens names ≡ none)

settle_one-unchanged :
    (r : Raw) (names : Names) (changed : Bool)
    → (settle_one r (names, changed)).1 ≡ false
    → (changed ≡ false) × ((settle_one r (names, changed)).0 ≡ names) × IsSettled names r
unfolding settle_one
settle_one-unchanged r names changed h = elim (Bool-cases (has names r.name)) [
  | inl old ↦ (rw old at h, rw old, inl old)
  | inr new ↦ elim (Option-cases (resolve_tokens r.tokens names)) [
    | inl unknown ↦ (rw (new, unknown) at h, rw (new, unknown), inr unknown)
    | inr (oid, e) ↦ absurd (let f = (rw (new, e) at h) in ground arith)
  ]
]

pub round-unchanged :
    (rs : List Raw) (names : Names) (changed : Bool)
    → (settle_round rs (names, changed)).1 ≡ false
    → (changed ≡ false) × ((settle_round rs (names, changed)).0 ≡ names) × All (IsSettled names) rs
unfolding settle_round
round-unchanged [] names changed h = (h, refl, tt)
round-unchanged (r ∷ rs) names changed h =
    let (later, same, settled) =
      round-unchanged rs (settle_one r (names, changed)).0 (settle_one r (names, changed)).1 h in
    let (now, kept, here') = settle_one-unchanged r names changed later in
    (now, same ∙ kept, (here', subst (λ n. All (IsSettled n) rs) kept settled))

module _ (raws : List Raw) where
  -- Every name of the map is defined, or is a root.
  abbrev pub AllDefined : Names → Type 0
  AllDefined names = (n : String) → has names n ≡ true → Defined raws n

  all_known-Defined :
      (names : Names) (tokens : List String)
      → AllDefined names
      → all (known names) tokens ≡ true
      → (s : String) → In s tokens
      → is_reference s ≡ true
      → Defined raws s
  all_known-Defined names tokens d k s m e = d s (ground (arith, all_In (known names) k m))

  all_known-is_token :
      (names : Names) (tokens : List String)
      → all (known names) tokens ≡ true
      → all is_token tokens ≡ true
  all_known-is_token names tokens k =
      all_of is_token tokens (λ s m. ground (arith, all_In (known names) k m))

  -- What the loop keeps of the map.
  pub record IsGrounded (names : Names) : Type 0 where
    pub full : IsFull names
    pub defined : AllDefined names
    pub extends : Extends base names

  resolve-Defined :
      (names : Names) (r : Raw) (oid : Oid)
      → In r raws
      → IsGrounded names
      → resolve_tokens r.tokens names ≡ some oid
      → Defined raws r.name × (is_empty oid ≡ false)
  unfolding resolve_tokens
  resolve-Defined names r oid m g e =
      let k : (all (known names) r.tokens ≡ true) × (is_empty r.tokens ≡ false) =
        ground (arith, resolve_from-known names r.tokens [] g.full) in
      (
        by_raw r m refl k.1 (all_known-is_token names r.tokens k.0)
            (all_known-Defined names r.tokens g.defined k.0),
        resolve_from-full names r.tokens [] oid g.full e,
      )

  assign-IsGrounded :
      (names : Names) (n : String) (oid : Oid)
      → has names n ≡ false
      → Defined raws n
      → is_empty oid ≡ false
      → IsGrounded names
      → IsGrounded (assign names n oid)
  assign-IsGrounded names n oid new d e g = record {
    full = IsFull-assign names n oid e g.full;
    defined = λ m h. elim (Bool-cases (n == m)) [
      | inl same ↦ subst (Defined raws) ((eq_iff n m).0 same) d
      | inr other ↦ g.defined m (ground (arith, lookup-assign names n m oid new))
    ];
    extends = λ m o h.
        let old = g.extends m o h in ground (arith, lookup-assign names n m oid new, eq_iff n m);
  }

  settle_one-IsGrounded :
      (r : Raw) (names : Names) (changed : Bool)
      → In r raws
      → IsGrounded names
      → IsGrounded (settle_one r (names, changed)).0
  unfolding settle_one
  settle_one-IsGrounded r names changed m g = elim (Bool-cases (has names r.name)) [
    | inl old ↦ rw (old) g
    | inr new ↦ elim (Option-cases (resolve_tokens r.tokens names)) [
      | inl unknown ↦ rw (new, unknown) g
      | inr (oid, e) ↦
          let (d, full) = resolve-Defined names r oid m g e in
          rw (new, e) (assign-IsGrounded names r.name oid new d full g)
    ]
  ]

  -- A change resolves a definition more.
  settle_one-missing :
      (r : Raw) (names : Names) (changed : Bool)
      → In r raws
      → let next = settle_one r (names, changed) in
        missing raws next.0 + flag next.1 ≤ missing raws names + flag changed
  unfolding settle_one
  settle_one-missing r names changed m = elim (Bool-cases (has names r.name)) [
    | inl old ↦ rw old (omega arith)
    | inr new ↦ elim (Option-cases (resolve_tokens r.tokens names)) [
      | inl unknown ↦ rw (new, unknown) (omega arith)
      | inr (oid, e) ↦ rw (new, e) (ground (arith, missing-assign_In raws r names oid m new))
    ]
  ]

  pub round-IsGrounded :
      (rs : List Raw) (names : Names) (changed : Bool)
      → ((r : Raw) → In r rs → In r raws)
      → IsGrounded names
      → IsGrounded (settle_round rs (names, changed)).0
  unfolding settle_round
  round-IsGrounded [] names changed sub g = g
  round-IsGrounded (r ∷ rs) names changed sub g =
      round-IsGrounded rs (settle_one r (names, changed)).0 (settle_one r (names, changed)).1
        (λ q m. sub q (there m)) (settle_one-IsGrounded r names changed (sub r (here refl)) g)

  pub round-missing :
      (rs : List Raw) (names : Names) (changed : Bool)
      → ((r : Raw) → In r rs → In r raws)
      → let next = settle_round rs (names, changed) in
        missing raws next.0 + flag next.1 ≤ missing raws names + flag changed
  unfolding settle_round
  round-missing [] names changed sub = omega arith
  round-missing (r ∷ rs) names changed sub =
      let first = settle_one-missing r names changed (sub r (here refl)) in
      let others =
        round-missing rs (settle_one r (names, changed)).0 (settle_one r (names, changed)).1
          (λ q m. sub q (there m)) in
      omega arith
