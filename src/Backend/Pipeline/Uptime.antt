-- ===== src/Backend/Pipeline/Uptime.antt =====
-- Uptime is accounted for, and never exceeds the time covered.
use argus_monitor.Prelude.{
  ℕ, ◌+◌, ◌-◌, ◌/◌, ◌≤◌, min, ◌≡◌, refl, ap, sym, arith, String, Option, none, some, List, [], ◌∷◌,
  Bool, Bool-cases, inl, inr, ◌&&◌, ◌==◌, eq_iff, eq_refl, All, nat_eq, if◌then◌else◌,
}
use argus_monitor.Backend.Pipeline.{
  UnitSample, UnitStateRow, UptimeBucketRow, Telemetry, upsert, state_of, delta_sec, credit,
  attribute, attribute_all, process_units,
}

-- A bucket holds no more time up than time.
abbrev pub IsSound : UptimeBucketRow → Type 0
IsSound b = b.up_sec ≤ b.total_sec

-- The seconds that the buckets cover for an entity of a source.
abbrev pub covered : String → String → List UptimeBucketRow → ℕ
covered source_id entity [] = 0
covered source_id entity (b ∷ buckets) =
    let rest = covered source_id entity buckets in
    if b.source_id == source_id && b.entity == entity then b.total_sec + rest else rest

-- The whole seconds since the last known state, an hour at most, or none when there is no such state.
abbrev pub elapsed : Option UnitStateRow → ℕ → ℕ
elapsed none now = 0
elapsed (some p) now = min 3600 ((now - p.updated_at) / 1000)

-- What a batch adds for an entity: the time since its last state, for each of its samples.
abbrev pub added : Telemetry → String → String → List UnitSample → ℕ → ℕ
added db source_id entity [] now = 0
added db source_id entity (u ∷ units) now =
    let rest = added db source_id entity units now in
    if u.entity == entity then elapsed (state_of db source_id entity) now + rest else rest

upsert-All :
    (same : UptimeBucketRow → Bool) (f : UptimeBucketRow → UptimeBucketRow) (new : UptimeBucketRow)
    (xs : List UptimeBucketRow)
    → ((x : UptimeBucketRow) → IsSound x → IsSound (f x))
    → IsSound new
    → All IsSound xs
    → All IsSound (upsert same f new xs)
upsert-All same f new [] keeps n h = (n, tt)
upsert-All same f new (x ∷ xs) keeps n h = elim (Bool-cases (same x)) [
  | inl hit ↦ rw hit (keeps x h.0, h.1)
  | inr miss ↦ rw miss (h.0, upsert-All same f new xs keeps n h.1)
]

attribute-All :
    (buckets : List UptimeBucketRow) (source_id entity : String) (o : Option UnitStateRow) (now : ℕ)
    → All IsSound buckets
    → All IsSound (attribute buckets source_id entity o now)
unfolding attribute
attribute-All buckets source_id entity none now h = h
attribute-All buckets source_id entity (some p) now h =
    elim (Bool-cases (nat_eq (delta_sec p now) 0)) [
      | inl nothing ↦ rw nothing h
      | inr some_time ↦
          rw some_time (upsert-All _ _ _ buckets (λ x s. ground arith) (ground arith) h)
    ]

covered-credit :
    (buckets : List UptimeBucketRow) (source_id e entity : String) (start add_up delta : ℕ)
    → covered source_id entity (credit buckets source_id e start add_up delta)
      ≡ covered source_id entity buckets + (if e == entity then delta else 0)
covered-credit [] source_id e entity start add_up delta = rw (eq_refl source_id) (ground arith)
covered-credit (b ∷ buckets) source_id e entity start add_up delta = ground (
  arith,
  covered-credit buckets source_id e entity start add_up delta,
  eq_iff b.entity e,
  eq_iff b.entity entity,
  eq_iff e entity,
)

delta_sec_lem :
    (p : UnitStateRow) (now : ℕ) → delta_sec p now ≡ min 3600 ((now - p.updated_at) / 1000)
unfolding delta_sec
delta_sec_lem p now = refl

covered-attribute :
    (buckets : List UptimeBucketRow) (source_id e entity : String) (o : Option UnitStateRow)
    (now : ℕ)
    → covered source_id entity (attribute buckets source_id e o now)
      ≡ covered source_id entity buckets + (if e == entity then elapsed o now else 0)
unfolding attribute
covered-attribute buckets source_id e entity none now = ground arith
covered-attribute buckets source_id e entity (some p) now =
    elim (Bool-cases (nat_eq (delta_sec p now) 0)) [
      | inl nothing ↦ rw (nothing, sym (delta_sec_lem p now)) (ground arith)
      | inr some_time ↦
          rw (some_time, sym (delta_sec_lem p now))
            (covered-credit buckets source_id e entity _ _ (delta_sec p now))
    ]

elapsed_same :
    (db : Telemetry) (source_id e entity : String) (now : ℕ)
    → (if e == entity then elapsed (state_of db source_id e) now else 0)
      ≡ (if e == entity then elapsed (state_of db source_id entity) now else 0)
elapsed_same db source_id e entity now = elim (Bool-cases (e == entity)) [
  | inl same ↦ rw same (ap (λ x. elapsed (state_of db source_id x) now) ((eq_iff e entity).0 same))
  | inr other ↦ rw other refl
]

covered-attribute_all :
    (units : List UnitSample) (buckets : List UptimeBucketRow) (db : Telemetry)
    (source_id entity : String) (now : ℕ)
    → covered source_id entity (attribute_all buckets db source_id units now)
      ≡ covered source_id entity buckets + added db source_id entity units now
unfolding attribute_all
covered-attribute_all [] buckets db source_id entity now = omega arith
covered-attribute_all (u ∷ units) buckets db source_id entity now = ground (
  arith,
  covered-attribute_all units
      (attribute buckets source_id u.entity (state_of db source_id u.entity) now) db source_id
      entity now,
  covered-attribute buckets source_id u.entity entity (state_of db source_id u.entity) now,
  elapsed_same db source_id u.entity entity now,
)

attribute_all-All :
    (units : List UnitSample) (buckets : List UptimeBucketRow) (db : Telemetry) (source_id : String)
    (now : ℕ)
    → All IsSound buckets
    → All IsSound (attribute_all buckets db source_id units now)
unfolding attribute_all
attribute_all-All [] buckets db source_id now h = h
attribute_all-All (u ∷ units) buckets db source_id now h =
    attribute_all-All units
      (attribute buckets source_id u.entity (state_of db source_id u.entity) now) db source_id now
      (attribute-All buckets source_id u.entity (state_of db source_id u.entity) now h)

-- A batch adds to the time covered for an entity of its source exactly the time since the entity's
-- last known state, an hour at most, for each of its samples of that entity.
pub process_units-covered :
    (db : Telemetry) (source_id entity : String) (units : List UnitSample) (now : ℕ)
    → covered source_id entity (process_units db source_id units now).uptime_buckets
      ≡ covered source_id entity db.uptime_buckets + added db source_id entity units now
unfolding process_units
process_units-covered db source_id entity [] now = omega arith
process_units-covered db source_id entity (u ∷ units) now =
    covered-attribute_all (u ∷ units) db.uptime_buckets db source_id entity now

-- No batch makes the time up of a bucket exceed the time that it covers.
pub process_units-IsSound :
    (db : Telemetry) (source_id : String) (units : List UnitSample) (now : ℕ)
    → All IsSound db.uptime_buckets
    → All IsSound (process_units db source_id units now).uptime_buckets
unfolding process_units
process_units-IsSound db source_id [] now h = h
process_units-IsSound db source_id (u ∷ units) now h =
    attribute_all-All (u ∷ units) db.uptime_buckets db source_id now h
