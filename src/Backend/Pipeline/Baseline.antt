-- ===== src/Backend/Pipeline/Baseline.antt =====
-- The baseline after a batch, and what a repeated batch gives.
use argus_monitor.Prelude.{
  ℕ, ◌≡◌, refl, sym, ap, ◌∙◌, arith, String, Option, none, some, List, [], ◌∷◌, map, Bool,
  Bool-cases, inl, inr, true, false, ◌||◌, ◌==◌, eq_iff, eq_refl, and_left, and_right, find, any,
  In, here, there, if◌then◌else◌,
}
use argus_monitor.Shared.{HealthStatus, status_eq}
use argus_monitor.Prelude.Int.{ℤ, int_eq_iff}
use argus_monitor.Core.Diff as Diff
use argus_monitor.Core.Diff.{
  DerivedEvent, sample_events, change_events, restart_events, diff_states,
}
use argus_monitor.Backend.Pipeline.{
  UnitSample, UnitStateRow, Telemetry, upsert, is_state_of, core_of, core_sample, snapshot_of,
  state_row, refreshed, refresh_all, events_of, process_units,
}

-- No later sample of a batch is of the same entity.
abbrev pub Distinct : List UnitSample → Type 0
Distinct [] = Unit
Distinct (u ∷ units) = (any (λ v. v.entity == u.entity) units ≡ false) × Distinct units

-- The status and the process of an entity, as the diff sees them.
abbrev baseline : List UnitStateRow → String → String → Option Diff.UnitSample
baseline states source_id entity = core_of (find (is_state_of source_id entity) states)

-- The row of another entity does not stand for this one.
core_hit :
    (r : UnitStateRow) (u : UnitSample) (now : ℕ)
    → r.entity ≡ u.entity
    → core_of (some (refreshed now u r)) ≡ some (core_sample u)
core_hit r u now e = ap (λ x. some (record { entity = x; status = u.status; pid = u.pid })) e

core_if :
    (b : Bool) (r : UnitStateRow) (o : Option UnitStateRow)
    → core_of (if b then some r else o) ≡ (if b then core_of (some r) else core_of o)
core_if true r o = refl
core_if false r o = refl

hit_if :
    (b : Bool) (r : UnitStateRow) (u : UnitSample) (now : ℕ) (o : Option UnitStateRow)
    → r.entity ≡ u.entity
    → core_of (if b then some (refreshed now u r) else o)
      ≡ (if b then some (core_sample u) else core_of (if b then some r else o))
hit_if true r u now o e = core_hit r u now e
hit_if false r u now o e = refl

miss_if :
    (source_id entity : String) (r : UnitStateRow) (u : UnitSample) (o : Option UnitStateRow)
    → is_state_of source_id u.entity r ≡ false
    → (if is_state_of source_id entity r
        then core_of (some r)
        else if u.entity == entity
        then some (core_sample u)
        else core_of o)
      ≡ (if u.entity == entity
          then some (core_sample u)
          else core_of (if is_state_of source_id entity r then some r else o))
miss_if source_id entity r u o miss = elim (Bool-cases (u.entity == entity)) [
  | inl same ↦
      rw (same, ap (λ x. is_state_of source_id x r) (sym ((eq_iff u.entity entity).0 same)) ∙ miss)
        refl
  | inr other ↦ rw (other, core_if (is_state_of source_id entity r) r o) refl
]

baseline-upsert :
    (states : List UnitStateRow) (source_id : String) (u : UnitSample) (now : ℕ) (entity : String)
    → baseline
        (upsert
          (is_state_of source_id u.entity)
          (refreshed now u)
          (state_row source_id now u)
          states)
        source_id
        entity
      ≡ (if u.entity == entity then some (core_sample u) else baseline states source_id entity)
baseline-upsert [] source_id u now entity =
    rw (eq_refl source_id) (core_if (u.entity == entity) (state_row source_id now u) none)
baseline-upsert (r ∷ states) source_id u now entity =
    elim (Bool-cases (is_state_of source_id u.entity r)) [
      | inl hit ↦
          let e = (eq_iff r.entity u.entity).0 (and_right _ _ hit) in
          rw
            (
              hit,
              and_left (r.source_id == source_id) (r.entity == u.entity) hit,
              ap (λ x. x == entity) e,
            )
            (hit_if (u.entity == entity) r u now (find (is_state_of source_id entity) states) e)
      | inr miss ↦
          rw
            (
              miss,
              core_if (is_state_of source_id entity r) r (
                  find (is_state_of source_id entity) (
                    upsert (is_state_of source_id u.entity) (refreshed now u)
                      (state_row source_id now u) states)),
              baseline-upsert states source_id u now entity,
            )
            (miss_if source_id entity r u (find (is_state_of source_id entity) states) miss)
    ]

first_false : (a b : Bool) → (a || b) ≡ false → a ≡ false
first_false a b h = ground arith

baseline-refresh :
    (units : List UnitSample) (states : List UnitStateRow) (source_id entity : String) (now : ℕ)
    → any (λ v. v.entity == entity) units ≡ false
    → baseline (refresh_all states source_id units now) source_id entity
      ≡ baseline states source_id entity
unfolding refresh_all
baseline-refresh [] states source_id entity now absent = refl
baseline-refresh (u ∷ units) states source_id entity now absent =
    baseline-refresh units _ source_id entity now (ground arith)
    ∙ baseline-upsert states source_id u now entity
    ∙ rw (first_false (u.entity == entity) (any (λ v. v.entity == entity) units) absent) refl

-- The baseline of every entity of a batch is its sample.
baseline-batch :
    (units : List UnitSample) (states : List UnitStateRow) (source_id : String) (now : ℕ)
    (u : UnitSample)
    → Distinct units
    → In u units
    → baseline (refresh_all states source_id units now) source_id u.entity ≡ some (core_sample u)
unfolding refresh_all
baseline-batch [] states source_id now u distinct m = elim m [ ]
baseline-batch (v ∷ units) states source_id now u distinct (here e) = rw e (
    baseline-refresh units _ source_id v.entity now distinct.0
    ∙ baseline-upsert states source_id v now v.entity
    ∙ rw (eq_refl v.entity) refl)
baseline-batch (v ∷ units) states source_id now u distinct (there m) =
    baseline-batch units _ source_id now u distinct.1 m

same_status : (a : HealthStatus) → status_eq a a ≡ true
same_status a = ground arith

same_pid : (entity : String) (p : Option ℤ) → restart_events entity p p ≡ []
unfolding restart_events
same_pid entity none = refl
same_pid entity (some z) = rw ((int_eq_iff z z).1 refl) (ground arith)

unchanged :
    (prev : Diff.Snapshot) (s : Diff.UnitSample)
    → prev s.entity ≡ some s
    → sample_events prev s ≡ []
unfolding sample_events change_events
unchanged prev s e = rw (e, same_status s.status) (same_pid s.entity s.pid)

all_unchanged :
    (prev : Diff.Snapshot) (units : List UnitSample)
    → ((u : UnitSample) → In u units → prev u.entity ≡ some (core_sample u))
    → diff_states prev (map core_sample units) ≡ []
unfolding diff_states
all_unchanged prev [] h = refl
all_unchanged prev (u ∷ units) h =
    rw (unchanged prev (core_sample u) (h u (here refl)))
      (all_unchanged prev units (λ v m. h v (there m)))

-- A batch without two samples of an entity that is sent again, at any time, gives no event: the first
-- one has made its samples the baseline.
pub repeat-no_events :
    (db : Telemetry) (source_id : String) (units : List UnitSample) (now : ℕ)
    → Distinct units
    → events_of (process_units db source_id units now) source_id units ≡ []
unfolding events_of process_units snapshot_of
repeat-no_events db source_id [] now distinct = all_unchanged _ [] (λ u m. elim m [ ])
repeat-no_events db source_id (v ∷ units) now distinct =
    all_unchanged _ (v ∷ units)
      (λ u m. baseline-batch (v ∷ units) db.unit_states source_id now u distinct m)
