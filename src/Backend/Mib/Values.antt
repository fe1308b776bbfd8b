-- ===== src/Backend/Mib/Values.antt =====
-- The OID of a resolved name is the value of a definition of it.
use argus_monitor.Prelude.{
  ℕ, zero, suc, ◌≡◌, inl, inr, refl, subst, arith, String, some, List, [], ◌∷◌, ◌++◌, Bool, false,
  ◌==◌, eq_iff, In, here, there, Bool-cases, Option-cases,
}
use argus_monitor.Backend.Mib.{
  Oid, Names, base, lookup, has, assign, Raw, token_value, resolve_from, resolve_tokens, settle_one,
  settle_round, settle,
}
use argus_monitor.Backend.Mib.Tokens.{Extends, lookup-assign}

-- More names do not change the value of what has one.
token_value_mono :
    (names next : Names) (t : String) (part : Oid)
    → Extends names next
    → token_value names t ≡ some part
    → token_value next t ≡ some part
unfolding token_value
token_value_mono names next t part x h = ground (arith, x t part)

resolve_from_mono :
    (names next : Names) (tokens : List String) (out oid : Oid)
    → Extends names next
    → resolve_from names tokens out ≡ some oid
    → resolve_from next tokens out ≡ some oid
unfolding resolve_from
resolve_from_mono names next [] out oid x h = h
resolve_from_mono names next (t ∷ tokens) out oid x h = elim (Option-cases (token_value names t)) [
  | inl missing ↦ absurd (let e = (rw (missing, resolve_from) at h) in ground arith)
  | inr (part, found) ↦
      rw (token_value_mono names next t part x found, resolve_from)
        (resolve_from_mono names next tokens (out ++ part) oid x (rw (found, resolve_from) at h))
]

assign-Extends :
    (names : Names) (n : String) (oid : Oid)
    → has names n ≡ false
    → Extends names (assign names n oid)
assign-Extends names n oid new m o h = ground (arith, lookup-assign names n m oid new, eq_iff n m)

module _ (raws : List Raw) where
  -- The OID of a root, or of a definition of the name.
  pub data HasValue (names : Names) (n : String) (oid : Oid) : Type 0 where
    of_root : lookup base n ≡ some oid → HasValue names n oid
    of_raw :
        (r : Raw)
        → In r raws
        → r.name ≡ n
        → resolve_tokens r.tokens names ≡ some oid
        → HasValue names n oid

  abbrev pub AllValued : Names → Type 0
  AllValued names = (n : String) (oid : Oid) → lookup names n ≡ some oid → HasValue names n oid

  HasValue-mono :
      {names next : Names} {n : String} {oid : Oid}
      → Extends names next
      → HasValue names n oid
      → HasValue next n oid
  unfolding resolve_tokens
  HasValue-mono x (of_root h) = of_root h
  HasValue-mono {names} {next} {oid} x (of_raw r m e h) =
      of_raw r m e (resolve_from_mono names next r.tokens [] oid x h)

  settle_one-AllValued :
      (r : Raw) (names : Names) (changed : Bool)
      → In r raws
      → AllValued names
      → AllValued (settle_one r (names, changed)).0
  unfolding settle_one
  settle_one-AllValued r names changed m v = elim (Bool-cases (has names r.name)) [
    | inl old ↦ rw old v
    | inr new ↦ elim (Option-cases (resolve_tokens r.tokens names)) [
      | inl unknown ↦ rw (new, unknown) v
      | inr (oid, e) ↦
          let x = assign-Extends names r.name oid new in
          rw (new, e)
            (λ n o h. elim (Bool-cases (r.name == n)) [
              | inl same ↦ HasValue-mono x (
                  of_raw r m ((eq_iff r.name n).0 same)
                    (ground (arith, lookup-assign names r.name n oid new)))
              | inr other ↦
                  HasValue-mono x (v n o (ground (arith, lookup-assign names r.name n oid new)))
            ])
    ]
  ]

  round-AllValued :
      (rs : List Raw) (state : Names × Bool)
      → ((r : Raw) → In r rs → In r raws)
      → AllValued state.0
      → AllValued (settle_round rs state).0
  unfolding settle_round
  round-AllValued [] state sub v = v
  round-AllValued (r ∷ rs) (names, changed) sub v =
      round-AllValued rs (settle_one r (names, changed)) (λ q m. sub q (there m))
        (settle_one-AllValued r names changed (sub r (here refl)) v)

  settle-AllValued :
      (fuel : ℕ) (names out : Names)
      → AllValued names
      → settle fuel raws names ≡ some out
      → AllValued out
  unfolding settle
  settle-AllValued zero names out v e = absurd (ground arith)
  settle-AllValued (suc fuel) names out v e =
      let next = (settle_round raws (names, false)).0 in
      let valued = round-AllValued raws (names, false) (λ r m. m) v in
      elim (Bool-cases (settle_round raws (names, false)).1) [
        | inl changed ↦ settle-AllValued fuel next out valued (rw (changed, settle) at e)
        | inr unchanged ↦
            let same : next ≡ out = (let f = (rw (unchanged, settle) at e) in ground arith) in
            subst AllValued same valued
      ]

-- The OID that the loop gives to a name is the one of a root, or the value that the tokens of a
-- definition of the name have in the final map.
pub settle-values :
    (fuel : ℕ) (raws : List Raw) (names : Names) (n : String) (oid : Oid)
    → settle fuel raws base ≡ some names
    → lookup names n ≡ some oid
    → HasValue raws names n oid
settle-values fuel raws names n oid e h =
    settle-AllValued raws fuel base names (λ m o r. of_root r) e n oid h
