-- ===== src/Backend/Retention.antt =====
-- Retention of telemetry, apps/backend/src/services/retention.ts and retention-sweeper.ts with
-- packages/db/src/retention.ts and seed/retention.ts, and the removal of the telemetry of an agent,
-- apps/backend/src/services/units.ts. The telemetry database is one list of rows: the table of a row,
-- the agent or monitor that it belongs to, the entity, and its instant. A delete does not fail. The
-- instant at which a policy was made is not modelled, nor what a sweep logs and returns.
pub mod Sweep
pub mod Purge
use argus_monitor.Prelude.{
  ℕ, ◌+◌, ◌-◌, ◌*◌, String, Option, none, some, List, [], ◌∷◌, ◌++◌, map, Bool, true, false, ◌&&◌,
  ◌||◌, not, ◌==◌, any, filter, update_where, includes, is_empty, is_null, ltb, nat_eq,
  if◌then◌else◌,
}

pub data Table : Type 0 where
  status_events client_events host_metrics ping_samples db_metrics storage_metrics : Table
  snmp_metrics folder_metrics process_metrics logs audit_log notifications : Table
  uptime_buckets unit_states : Table

pub record TelemetryRow : Type 0 where
  pub table : Table
  pub key : String
  pub entity : String
  pub ts : ℕ

abbrev pub Rows : Type 0
Rows = List TelemetryRow

pub record RetentionRow : Type 0 where
  pub data_type : String
  pub days : Option ℕ
  pub updated_at : Option ℕ

abbrev pub retention_data_types : List String
retention_data_types =
    "status_events" ∷ "client_events" ∷ "host_metrics" ∷ "ping_samples" ∷ "db_metrics"
    ∷ "storage_metrics" ∷ "snmp_metrics" ∷ "folder_metrics" ∷ "process_metrics" ∷ "logs"
    ∷ "audit_log" ∷ "notifications" ∷ "uptime_buckets" ∷ []

-- TARGETS: the name of the type that prunes a table.
abbrev pub type_of : Table → Option String
type_of status_events = some "status_events"
type_of client_events = some "client_events"
type_of host_metrics = some "host_metrics"
type_of ping_samples = some "ping_samples"
type_of db_metrics = some "db_metrics"
type_of storage_metrics = some "storage_metrics"
type_of snmp_metrics = some "snmp_metrics"
type_of folder_metrics = some "folder_metrics"
type_of process_metrics = some "process_metrics"
type_of logs = some "logs"
type_of audit_log = some "audit_log"
type_of notifications = some "notifications"
type_of uptime_buckets = some "uptime_buckets"
type_of unit_states = none

-- Whether a table is the target of a data type.
abbrev pub is_target : String → Option String → Bool
is_target data_type none = false
is_target data_type (some name) = name == data_type

-- `stored.get(dataType)`, of the map that the later of two rows with a type wins.
abbrev pub stored : List RetentionRow → String → Option RetentionRow
stored [] data_type = none
stored (r ∷ rows) data_type = elim (stored rows data_type) [
  | some later ↦ some later
  | none ↦ if r.data_type == data_type then some r else none
]

-- A type that has no row is kept without limit.
abbrev pub row_or : String → Option RetentionRow → RetentionRow
row_or data_type none = record { data_type = data_type; days = none; updated_at = none }
row_or data_type (some r) = r

unfoldable pub list_retention : List RetentionRow → List RetentionRow
list_retention config = map (λ t. row_or t (stored config t)) retention_data_types

-- The upsert of the primary key.
unfoldable pub set_retention : List RetentionRow → String → Option ℕ → ℕ → List RetentionRow
set_retention config data_type days now =
    if any (λ r. r.data_type == data_type) config
    then update_where (λ r. r.data_type == data_type)
        (λ r. record r { days = days; updated_at = some now }) config
    else config ++ record { data_type = data_type; days = days; updated_at = some now } ∷ []

-- The rows of a table that are older than a cutoff.
abbrev pub is_older : String → ℕ → TelemetryRow → Bool
is_older data_type cutoff r = is_target data_type (type_of r.table) && ltb r.ts cutoff

-- `days == null || days <= 0` is no limit.
unfoldable pub prune_older_than : Rows → String → Option ℕ → ℕ → Rows
prune_older_than db data_type none now = db
prune_older_than db data_type (some days) now =
    if nat_eq days 0
    then db
    else filter (λ r. not (is_older data_type (now - days * 86400000) r)) db

-- The loop over the policies.
unfoldable pub sweep_each : Rows → List RetentionRow → ℕ → Rows
unfolding prune_older_than
sweep_each db [] now = db
sweep_each db (p ∷ policies) now =
    sweep_each (prune_older_than db p.data_type p.days now) policies now

unfoldable pub run_retention_sweep : Rows → List RetentionRow → ℕ → Rows
unfolding sweep_each list_retention
run_retention_sweep db config now = sweep_each db (list_retention config) now

abbrev pub is_unit_of : String → TelemetryRow → Bool
is_unit_of agent_id r = elim r.table [ unit_states ↦ r.key == agent_id | _ ↦ false ]

-- `names` are the names of the agent's monitors.
unfoldable pub prune_orphan_units : Rows → String → (names : List String) → Rows
prune_orphan_units db agent_id names =
    if is_empty names
    then db
    else filter (λ r. not (is_unit_of agent_id r && not (includes names r.entity))) db

-- The tables whose rows go by the agent, and those whose rows go by a monitor.
abbrev pub is_by_source : Table → Bool
is_by_source unit_states = true
is_by_source status_events = true
is_by_source client_events = true
is_by_source uptime_buckets = true
is_by_source host_metrics = true
is_by_source ping_samples = true
is_by_source logs = true
is_by_source notifications = true
is_by_source _ = false

abbrev pub is_by_monitor : Table → Bool
is_by_monitor db_metrics = true
is_by_monitor snmp_metrics = true
is_by_monitor storage_metrics = true
is_by_monitor folder_metrics = true
is_by_monitor _ = false

unfoldable pub purge_agent_telemetry : Rows → String → (monitor_ids : List String) → Rows
purge_agent_telemetry db agent_id monitor_ids =
    let kept = filter (λ r. not (is_by_source r.table && r.key == agent_id)) db in
    if is_empty monitor_ids
    then kept
    else filter (λ r. not (is_by_monitor r.table && includes monitor_ids r.key)) kept
