-- ===== src/Backend/Pipeline.antt =====
-- The ingest pipeline, apps/backend/src/services/pipeline.ts. A timestamp is in milliseconds since the
-- epoch; a rich sample is the text of its JSON.
pub mod Uptime
pub mod Baseline
use Prim.Native.String as Str
use argus_monitor.Prelude.{
  ℕ, ◌+◌, ◌-◌, ◌*◌, ◌/◌, String, Option, none, some, List, [], ◌∷◌, ◌++◌, map, Bool, true, false,
  ◌&&◌, ◌||◌, not, ◌==◌, find, flat_map, min, nat_eq, if◌then◌else◌,
}
use argus_monitor.Prelude.Int.{ℤ}
use argus_monitor.Shared.{HealthStatus, up, degraded, hang, down, unknown, status_eq}
use argus_monitor.Core.Diff as Diff
use argus_monitor.Backend.Notifications.{LogRow, NotificationRow, status_logs, notes_of}
use argus_monitor.Core.Diff.{DerivedEvent, status_change, service_restart, Snapshot, diff_states}

-- A sample of an agent; a field that is absent is `none`.
pub record UnitSample : Type 0 where
  pub entity : String
  pub status : HealthStatus
  pub pid : Option ℤ
  pub critical : Option Bool
  pub meta : Option String

pub record UnitStateRow : Type 0 where
  pub source_id : String
  pub entity : String
  pub status : HealthStatus
  pub pid : Option ℤ
  pub critical : Bool
  pub sample : Option String
  pub updated_at : ℕ

pub record UptimeBucketRow : Type 0 where
  pub source_id : String
  pub entity : String
  pub bucket_start : ℕ
  pub up_sec : ℕ
  pub total_sec : ℕ

pub record StatusEventRow : Type 0 where
  pub source_id : String
  pub event : DerivedEvent

-- The tables of the telemetry database that the pipeline uses.
pub record Telemetry : Type 0 where
  pub unit_states : List UnitStateRow
  pub uptime_buckets : List UptimeBucketRow
  pub status_events : List StatusEventRow
  pub logs : List LogRow
  pub notifications : List NotificationRow

abbrev pub max_interval_sec : ℕ
max_interval_sec = 3600

abbrev pub hour_ms : ℕ
hour_ms = 3600000

-- The start of the hour.
abbrev pub hour_bucket : ℕ → ℕ
hour_bucket t = t / hour_ms * hour_ms

-- INSERT … ON CONFLICT DO UPDATE: the conflicting row is changed, or else the new one is added.
abbrev pub upsert {ℓ} : {A : Type ℓ} → (A → Bool) → (A → A) → A → List A → List A
upsert same f new [] = new ∷ []
upsert same f new (x ∷ xs) =
    let rest = upsert same f new xs in if same x then f x ∷ xs else x ∷ rest

abbrev pub is_state_of : String → String → UnitStateRow → Bool
is_state_of source_id entity r = r.source_id == source_id && r.entity == entity

-- The last known state of an entity; the pair is unique in the table.
abbrev pub state_of : Telemetry → String → String → Option UnitStateRow
state_of db source_id entity = find (is_state_of source_id entity) db.unit_states

abbrev pub core_of : Option UnitStateRow → Option Diff.UnitSample
core_of none = none
core_of (some r) = some (record { entity = r.entity; status = r.status; pid = r.pid })

unfoldable pub snapshot_of : Telemetry → String → Snapshot
snapshot_of db source_id entity = core_of (state_of db source_id entity)

abbrev pub core_sample : UnitSample → Diff.UnitSample
core_sample u = record { entity = u.entity; status = u.status; pid = u.pid }

-- The seconds since the state was written, of an hour at most; a clock that went back gives none.
unfoldable pub delta_sec : UnitStateRow → ℕ → ℕ
delta_sec p now = min max_interval_sec ((now - p.updated_at) / 1000)

abbrev pub is_bucket : String → String → ℕ → UptimeBucketRow → Bool
is_bucket source_id entity start b =
    b.source_id == source_id && b.entity == entity && nat_eq b.bucket_start start

abbrev pub add_seconds : ℕ → ℕ → UptimeBucketRow → UptimeBucketRow
add_seconds add_up delta b = record b {
  up_sec = b.up_sec + add_up;
  total_sec = b.total_sec + delta;
}

abbrev pub credit : List UptimeBucketRow → String → String → ℕ → ℕ → ℕ → List UptimeBucketRow
credit buckets source_id entity start add_up delta =
    upsert (is_bucket source_id entity start) (add_seconds add_up delta)
      (record {
        source_id = source_id;
        entity = entity;
        bucket_start = start;
        up_sec = add_up;
        total_sec = delta;
      })
      buckets

-- One round of the uptime loop: the interval goes to the status that was held in it.
unfoldable pub attribute :
    List UptimeBucketRow → String → String → Option UnitStateRow → ℕ → List UptimeBucketRow
unfolding delta_sec
attribute buckets source_id entity none now = buckets
attribute buckets source_id entity (some p) now =
    let delta = delta_sec p now in
    if nat_eq delta 0
    then buckets
    else credit buckets source_id entity (hour_bucket p.updated_at)
        (if status_eq p.status up then delta else 0) delta

-- The loop; `before` is the state that was read at the start.
unfoldable pub attribute_all :
    List UptimeBucketRow → Telemetry → String → List UnitSample → ℕ → List UptimeBucketRow
unfolding attribute
attribute_all buckets before source_id [] now = buckets
attribute_all buckets before source_id (u ∷ units) now =
    attribute_all (attribute buckets source_id u.entity (state_of before source_id u.entity) now)
      before source_id units now

abbrev or_false : Option Bool → Bool
or_false none = false
or_false (some b) = b

abbrev pub state_row : String → ℕ → UnitSample → UnitStateRow
state_row source_id now u = record {
  source_id = source_id;
  entity = u.entity;
  status = u.status;
  pid = u.pid;
  critical = or_false u.critical;
  sample = u.meta;
  updated_at = now;
}

-- What the conflict sets: every column but the key.
abbrev pub refreshed : ℕ → UnitSample → UnitStateRow → UnitStateRow
refreshed now u r = record r {
  status = u.status;
  pid = u.pid;
  critical = or_false u.critical;
  sample = u.meta;
  updated_at = now;
}

-- The loop that refreshes the baseline.
unfoldable pub refresh_all : List UnitStateRow → String → List UnitSample → ℕ → List UnitStateRow
refresh_all states source_id [] now = states
refresh_all states source_id (u ∷ units) now =
    refresh_all
      (upsert (is_state_of source_id u.entity) (refreshed now u) (state_row source_id now u) states)
      source_id units now

unfoldable pub events_of : Telemetry → String → List UnitSample → List DerivedEvent
unfolding snapshot_of
events_of db source_id units = diff_states (snapshot_of db source_id) (map core_sample units)

unfoldable pub process_units : Telemetry → String → List UnitSample → ℕ → Telemetry
unfolding events_of status_logs notes_of attribute_all refresh_all
process_units db source_id [] now = db
process_units db source_id (u ∷ rest) now =
    let events = events_of db source_id (u ∷ rest) in
    record {
      unit_states = refresh_all db.unit_states source_id (u ∷ rest) now;
      uptime_buckets = attribute_all db.uptime_buckets db source_id (u ∷ rest) now;
      status_events =
          db.status_events ++ map (λ e. record { source_id = source_id; event = e }) events;
      logs = db.logs ++ flat_map (status_logs source_id) events;
      notifications = db.notifications ++ flat_map (notes_of source_id) events;
    }
