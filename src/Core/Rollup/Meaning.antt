-- ===== src/Core/Rollup/Meaning.antt =====
-- What the rolled-up status says of the units, and that it depends only on which units there are.
use argus_monitor.Prelude.{
  ◌≡◌, refl, ◌↔◌, ◌≢◌, ◌⊎◌, inl, inr, arith, List, [], ◌∷◌, Bool, true, false, ◌&&◌, not, any, all,
  In, here, any_In, In-any, all_In, all_of, Bool-cases, Bool-ext, if◌then◌else◌,
}
use argus_monitor.Shared.{HealthStatus, up, degraded, hang, down, unknown, status_eq, status_eq_iff}
use argus_monitor.Core.Rollup.{MonitoredUnit, is_bad, critical_loop, bad_loop, rollup}

abbrev pub IsBad : HealthStatus → Type 0
IsBad s = (s ≡ down) ⊎ (s ≡ hang)

-- Some unit of the given criticality is down or hung.
abbrev pub Outage : Bool → List MonitoredUnit → Type 0
Outage critical units = (u : MonitoredUnit) × In u units × (u.critical ≡ critical) × IsBad u.status

abbrev pub AllUp : List MonitoredUnit → Type 0
AllUp units = (u : MonitoredUnit) → In u units → u.status ≡ up

-- What each answer means. HANG is never an answer.
abbrev pub Means : List MonitoredUnit → HealthStatus → Type 0
Means units down = Outage true units
Means units degraded = ¬ (Outage true units) × Outage false units
Means units up = (units ≢ []) × AllUp units
Means units unknown =
    ¬ (Outage true units) × ¬ (Outage false units) × ((units ≡ []) ⊎ ¬ (AllUp units))
Means units hang = ⊥

abbrev bad_test : Bool → MonitoredUnit → Bool
bad_test true u = u.critical && is_bad u.status
bad_test false u = not u.critical && is_bad u.status

abbrev up_test : MonitoredUnit → Bool
up_test u = status_eq u.status up

bad_test_iff :
    (c : Bool) (u : MonitoredUnit) → (bad_test c u ≡ true) ↔ ((u.critical ≡ c) × IsBad u.status)
unfolding is_bad
bad_test_iff true u = ground arith
bad_test_iff false u = ground arith

critical_loop_lem :
    (units : List MonitoredUnit) (after : HealthStatus)
    → critical_loop units after ≡ (if any (bad_test true) units then down else after)
unfolding critical_loop
critical_loop_lem [] after = refl
critical_loop_lem (u ∷ us) after = ground (arith, critical_loop_lem us after)

bad_loop_lem :
    (units : List MonitoredUnit) (after : HealthStatus)
    → bad_loop units after ≡ (if any (bad_test false) units then degraded else after)
unfolding bad_loop
bad_loop_lem [] after = refl
bad_loop_lem (u ∷ us) after = ground (arith, bad_loop_lem us after)

-- The three tests that decide the answer, for a list that is not empty.
abbrev answer : Bool → Bool → Bool → HealthStatus
answer c b a = if c then down else if b then degraded else if a then up else unknown

rollup-cons :
    (u : MonitoredUnit) (us : List MonitoredUnit)
    → rollup (u ∷ us)
      ≡ answer (any (bad_test true) (u ∷ us)) (any (bad_test false) (u ∷ us)) (all up_test (u ∷ us))
unfolding rollup
rollup-cons u us = rw (critical_loop_lem, bad_loop_lem)

Outage-iff :
    (c : Bool) (units : List MonitoredUnit) → (any (bad_test c) units ≡ true) ↔ Outage c units
Outage-iff c units = (to, from)
  where
    to : any (bad_test c) units ≡ true → Outage c units
    to h =
        let (u, m, e) = any_In (bad_test c) units h in
        let (k, b) = (bad_test_iff c u).0 e in (u, m, k, b)

    from : Outage c units → any (bad_test c) units ≡ true
    from (u, m, k, b) = In-any (bad_test c) m ((bad_test_iff c u).1 (k, b))

AllUp-iff : (units : List MonitoredUnit) → (all up_test units ≡ true) ↔ AllUp units
AllUp-iff units = (
  λ h u m. (status_eq_iff u.status up).0 (all_In up_test h m),
  λ h. all_of up_test units (λ u m. (status_eq_iff u.status up).1 (h u m)),
)

no-Outage :
    (c : Bool) (units : List MonitoredUnit) → any (bad_test c) units ≡ false → ¬ (Outage c units)
no-Outage c units h k = ground (arith, (Outage-iff c units).1 k)

not-AllUp : (units : List MonitoredUnit) → all up_test units ≡ false → ¬ (AllUp units)
not-AllUp units h k = ground (arith, (AllUp-iff units).1 k)

answer-Means :
    (units : List MonitoredUnit)
    → units ≢ []
    → Means units
        (answer (any (bad_test true) units) (any (bad_test false) units) (all up_test units))
answer-Means units some_unit = elim (Bool-cases (any (bad_test true) units)) [
  | inl c ↦ rw c ((Outage-iff true units).0 c)
  | inr c ↦ elim (Bool-cases (any (bad_test false) units)) [
    | inl b ↦ rw (c, b) (no-Outage true units c, (Outage-iff false units).0 b)
    | inr b ↦ elim (Bool-cases (all up_test units)) [
      | inl a ↦ rw (c, b, a) (some_unit, (AllUp-iff units).0 a)
      | inr a ↦
          rw (c, b, a) (no-Outage true units c, no-Outage false units b, inr (not-AllUp units a))
    ]
  ]
]

-- The answer of `rollup` is the one that the units call for: DOWN if a critical unit is down or
-- hung; DEGRADED if none is, and a non-critical one is; UP if there are units and all are up;
-- UNKNOWN if no unit is down or hung, and there are none or not all are up.
pub rollup-Means : (units : List MonitoredUnit) → Means units (rollup units)
rollup-Means [] = unfold rollup in (λ o. elim o.1 [ ], λ o. elim o.1 [ ], inl refl)
rollup-Means (u ∷ us) = rw rollup-cons (answer-Means (u ∷ us) (λ e. cc))

any_test_same :
    (p : MonitoredUnit → Bool) (us vs : List MonitoredUnit)
    → ((u : MonitoredUnit) → In u us ↔ In u vs)
    → any p us ≡ any p vs
any_test_same p us vs h =
    Bool-ext (any p us) (any p vs) (λ e. let (u, m, k) = any_In p us e in In-any p ((h u).0 m) k)
      (λ e. let (u, m, k) = any_In p vs e in In-any p ((h u).1 m) k)

all_test_same :
    (p : MonitoredUnit → Bool) (us vs : List MonitoredUnit)
    → ((u : MonitoredUnit) → In u us ↔ In u vs)
    → all p us ≡ all p vs
all_test_same p us vs h =
    Bool-ext (all p us) (all p vs) (λ e. all_of p vs (λ u m. all_In p e ((h u).1 m)))
      (λ e. all_of p us (λ u m. all_In p e ((h u).0 m)))

-- The answer depends only on which units there are, not on their order or their number.
pub rollup-same_members :
    (us vs : List MonitoredUnit) → ((u : MonitoredUnit) → In u us ↔ In u vs) → rollup us ≡ rollup vs
rollup-same_members [] [] h = refl
rollup-same_members [] (v ∷ vs) h = elim ((h v).1 (here refl)) [ ]
rollup-same_members (u ∷ us) [] h = elim ((h u).0 (here refl)) [ ]
rollup-same_members (u ∷ us) (v ∷ vs) h = rw (
  rollup-cons u us,
  rollup-cons v vs,
  any_test_same (bad_test true) (u ∷ us) (v ∷ vs) h,
  any_test_same (bad_test false) (u ∷ us) (v ∷ vs) h,
  all_test_same up_test (u ∷ us) (v ∷ vs) h,
)
