-- ===== src/Backend/PublicStatus.antt =====
-- The public status page, apps/backend/src/services/public-status.ts. An instant is in milliseconds
-- since the epoch, and a day is the number of days since then. Texts that are trimmed are lists of code
-- points. A percentage is rounded from the exact quotient. The instants of the configuration's row are
-- not modelled.
pub mod Page
pub mod Secrecy
pub mod Anonymity
pub mod Config
pub mod History
pub mod Sections
use argus_monitor.Prelude.{
  ℕ, zero, suc, ◌+◌, ◌-◌, ◌*◌, ◌/◌, String, Option, none, some, List, [], ◌∷◌, ◌++◌, map, Bool,
  true, false, ◌&&◌, ◌||◌, not, ◌==◌, any, find, filter, is_empty, is_null, leb, nat_eq, same_text,
  if◌then◌else◌,
}
use argus_monitor.Shared.{HealthStatus, up, down, unknown}
use argus_monitor.Core.Rollup.{MonitoredUnit, rollup}
use argus_monitor.Core.Totp.{trim}
use argus_monitor.Core.Uptime.{UptimeBucket, empty_bucket, hundredths}
use argus_monitor.Backend.Agents.{AgentRow, AgentStatus, pending, approved, revoked, agent_by}
use argus_monitor.Backend.Monitors.{MonitorRow, monitor_by}
use argus_monitor.Backend.Pipeline.{UnitStateRow, UptimeBucketRow, is_state_of}

pub data ItemKind : Type 0 where
  agent_item monitor_item : ItemKind

pub record PublicItemConfig : Type 0 where
  pub kind : ItemKind
  pub ref_id : String
  pub label : String
  pub group : Option (List ℕ)

pub data NoticeLevel : Type 0 where
  info maintenance incident : NoticeLevel

pub record PublicNotice : Type 0 where
  pub level : NoticeLevel
  pub message : List ℕ

pub record PublicConfig : Type 0 where
  pub enabled : Bool
  pub title : String
  pub description : Option (List ℕ)
  pub show_uptime : Bool
  pub show_history : Bool
  pub history_days : ℕ
  pub notice : Option PublicNotice
  pub items : List PublicItemConfig

pub record PublicConfigRow : Type 0 where
  pub id : String
  pub enabled : Bool
  pub title : String
  pub description : Option (List ℕ)
  pub show_uptime : Bool
  pub show_history : Bool
  pub history_days : ℕ
  pub notice_level : Option String
  pub notice_message : Option (List ℕ)
  pub items : List PublicItemConfig

-- The tables that the page is made from.
pub record Site : Type 0 where
  pub configs : List PublicConfigRow
  pub agents : List AgentRow
  pub monitors : List MonitorRow
  pub states : List UnitStateRow
  pub buckets : List UptimeBucketRow

abbrev pub default_config : PublicConfig
default_config = record {
  enabled = false;
  title = "System Status";
  description = some [];
  show_uptime = true;
  show_history = true;
  history_days = 90;
  notice = none;
  items = [];
}

-- A stored level that is neither is "info".
abbrev pub normalize_notice_level : Option String → NoticeLevel
normalize_notice_level none = info
normalize_notice_level (some v) =
    if v == "maintenance" then maintenance else if v == "incident" then incident else info

abbrev pub level_text : NoticeLevel → String
level_text info = "info"
level_text maintenance = "maintenance"
level_text incident = "incident"

-- `value ?? ""`.
abbrev pub or_blank : Option (List ℕ) → List ℕ
or_blank none = []
or_blank (some s) = s

-- The notice of a row, if its message is not blank.
abbrev pub notice_of : Option String → Option (List ℕ) → Option PublicNotice
notice_of level message =
    let text = trim (or_blank message) in
    if is_empty text
    then none
    else some (record { level = normalize_notice_level level; message = text })

abbrev pub config_of : Option PublicConfigRow → PublicConfig
config_of none = default_config
config_of (some r) = record {
  enabled = r.enabled;
  title = r.title;
  description = some (or_blank r.description);
  show_uptime = r.show_uptime;
  show_history = r.show_history;
  history_days = r.history_days;
  notice = notice_of r.notice_level r.notice_message;
  items = r.items;
}

unfoldable pub get_public_config : List PublicConfigRow → PublicConfig
unfolding trim
get_public_config configs = config_of (find (λ r. r.id == "default") configs)

-- The columns of a notice: its level and message, unless the message is blank.
abbrev pub stored_level : Option PublicNotice → Option String
stored_level none = none
stored_level (some n) = if is_empty (trim n.message) then none else some (level_text n.level)

abbrev pub stored_message : Option PublicNotice → Option (List ℕ)
stored_message none = none
stored_message (some n) = let text = trim n.message in if is_empty text then none else some text

abbrev pub row_of : PublicConfig → PublicConfigRow
row_of dto = record {
  id = "default";
  enabled = dto.enabled;
  title = dto.title;
  description = some (or_blank dto.description);
  show_uptime = dto.show_uptime;
  show_history = dto.show_history;
  history_days = dto.history_days;
  notice_level = stored_level dto.notice;
  notice_message = stored_message dto.notice;
  items = dto.items;
}

-- The upsert of the singleton row.
unfoldable pub put_row : PublicConfigRow → List PublicConfigRow → List PublicConfigRow
put_row row [] = row ∷ []
put_row row (r ∷ rows) =
    let rest = put_row row rows in if r.id == "default" then row ∷ rows else r ∷ rest

unfoldable pub update_public_config : List PublicConfigRow → PublicConfig → List PublicConfigRow
unfolding trim put_row
update_public_config configs dto = put_row (row_of dto) configs

-- AGENT_STALE_MS; the difference is within the window also if it is negative.
abbrev pub seen_status : Option ℕ → ℕ → HealthStatus
seen_status none now = down
seen_status (some seen) now = if leb (now - seen) 120000 then up else down

abbrev pub approved_status : AgentStatus → Option ℕ → ℕ → HealthStatus
approved_status approved seen now = seen_status seen now
approved_status _ seen now = unknown

abbrev pub status_of_agent : Option AgentRow → ℕ → HealthStatus
status_of_agent none now = unknown
status_of_agent (some a) now = approved_status a.status a.last_seen_at now

unfoldable pub agent_status : Site → String → ℕ → HealthStatus
agent_status db ref_id now = status_of_agent (agent_by db.agents ref_id) now

-- What an item stands for: its status, and whose buckets count for it.
pub record Resolved : Type 0 where
  pub status : HealthStatus
  pub source_id : Option String
  pub entity : Option String

abbrev pub status_of_state : Option UnitStateRow → HealthStatus
status_of_state none = unknown
status_of_state (some s) = s.status

abbrev pub unresolved : Resolved
unresolved = record { status = unknown; source_id = none; entity = none }

abbrev pub resolved_monitor : Site → Option MonitorRow → Resolved
resolved_monitor db none = unresolved
resolved_monitor db (some m) = if not m.enabled then unresolved else record {
  status = status_of_state (find (is_state_of m.agent_id m.name) db.states);
  source_id = some m.agent_id;
  entity = some m.name;
}

unfoldable pub monitor_status : Site → String → Resolved
monitor_status db ref_id = resolved_monitor db (monitor_by db.monitors ref_id)

-- `entity ?`: an empty name counts as none.
abbrev pub is_bucket_for : String → Option String → UptimeBucketRow → Bool
is_bucket_for source_id none r = r.source_id == source_id
is_bucket_for source_id (some entity) r =
    r.source_id == source_id && (entity == "" || r.entity == entity)

abbrev pub add_bucket : UptimeBucket → UptimeBucketRow → UptimeBucket
add_bucket acc r = record {
  up_sec = acc.up_sec + r.up_sec;
  total_sec = acc.total_sec + r.total_sec;
}

unfoldable pub sum_from : UptimeBucket → List UptimeBucketRow → UptimeBucket
sum_from acc [] = acc
sum_from acc (r ∷ rows) = sum_from (add_bucket acc r) rows

abbrev pub pct_of : UptimeBucket → Option ℕ
pct_of b = if nat_eq b.total_sec 0 then none else some (hundredths b.up_sec b.total_sec)

-- In hundredths of a percent.
unfoldable pub uptime_pct_for : Site → String → Option String → Option ℕ
unfolding sum_from
uptime_pct_for db source_id entity =
    let rows = filter (is_bucket_for source_id entity) db.buckets in
    if is_empty rows then none else pct_of (sum_from empty_bucket rows)

abbrev pub day_ms : ℕ
day_ms = 86400000

-- `byDay.set(key, acc)`, with what the row adds.
unfoldable pub add_day : UptimeBucketRow → List (ℕ × UptimeBucket) → List (ℕ × UptimeBucket)
add_day r [] = (r.bucket_start / day_ms, add_bucket empty_bucket r) ∷ []
add_day r ((day, acc) ∷ days) =
    if nat_eq day (r.bucket_start / day_ms)
    then (day, add_bucket acc r) ∷ days
    else (day, acc) ∷ add_day r days

unfoldable pub by_day : List UptimeBucketRow → List (ℕ × UptimeBucket) → List (ℕ × UptimeBucket)
unfolding add_day
by_day [] days = days
by_day (r ∷ rows) days = by_day rows (add_day r days)

-- `byDay.get(key)`; a day without rows counts as an empty sum.
abbrev pub total_of : List (ℕ × UptimeBucket) → ℕ → UptimeBucket
total_of [] day = empty_bucket
total_of ((key, acc) ∷ days) day = if nat_eq key day then acc else total_of days day

-- `Math.round(up / total * 100)`.
abbrev pub day_pct : UptimeBucket → Option ℕ
day_pct b =
    if nat_eq b.total_sec 0
    then none
    else some ((2 * (b.up_sec * 100) + b.total_sec) / (2 * b.total_sec))

unfoldable pub history_from : List (ℕ × UptimeBucket) → ℕ → ℕ → List (Option ℕ)
history_from days zero day = []
history_from days (suc n) day = day_pct (total_of days day) ∷ history_from days n (day + 1)

abbrev pub first_day : ℕ → ℕ → ℕ
first_day days now = (now - (days - 1) * day_ms) / day_ms

unfoldable pub uptime_history_for : Site → String → Option String → ℕ → ℕ → List (Option ℕ)
unfolding by_day history_from
uptime_history_for db source_id entity days now =
    let first = first_day days now in
    let rows =
      filter (λ r. is_bucket_for source_id entity r && leb (first * day_ms) r.bucket_start)
        db.buckets in
    history_from (by_day rows []) days first
