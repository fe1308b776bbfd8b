-- ===== src/Backend/Notifications.antt =====
-- The log lines and the notifications that the ingest pipeline writes for derived events,
-- apps/backend/src/services/pipeline.ts.
use Prim.Native.String as Str
use argus_monitor.Prelude.{String, Option, none, some, List, [], ◌∷◌, ◌||◌, not, if◌then◌else◌}
use argus_monitor.Shared.{HealthStatus, up, degraded, hang, down, unknown, status_eq}
use argus_monitor.Core.Diff.{DerivedEvent, status_change, service_restart}

pub record LogRow : Type 0 where
  pub category : String
  pub level : String
  pub source_id : String
  pub message : String

pub record NotificationRow : Type 0 where
  pub severity : String
  pub source_id : String
  pub title : String
  pub message : String
  pub plain_language : String

abbrev pub status_text : HealthStatus → String
status_text up = "UP"
status_text degraded = "DEGRADED"
status_text hang = "HANG"
status_text down = "DOWN"
status_text unknown = "UNKNOWN"

abbrev old_text : Option HealthStatus → String
old_text none = "—"
old_text (some status) = status_text status

abbrev pub level_of : HealthStatus → String
level_of status =
    if status_eq status up then "info" else if status_eq status degraded then "warn" else "error"

infixr 5 ◌⊕◌
abbrev ◌⊕◌ : String → String → String
a ⊕ b = Str.◌++◌ a b

-- The log line of a change of status.
unfoldable pub status_logs : String → DerivedEvent → List LogRow
status_logs source_id (status_change entity old new) =
    record {
      category = "status";
      level = level_of new;
      source_id = source_id;
      message = entity ⊕ ": " ⊕ old_text old ⊕ " → " ⊕ status_text new;
    }
    ∷ []
status_logs source_id (service_restart entity old_pid new_pid) = []

abbrev what_of : HealthStatus → String
what_of status =
    if status_eq status degraded
    then "is degraded"
    else if status_eq status hang
    then "appears hung"
    else "is down"

unfoldable pub build_notification : String → String → HealthStatus → List NotificationRow
build_notification source_id entity status =
    if status_eq status up
    then record {
      severity = "info";
      source_id = source_id;
      title = entity ⊕ " recovered";
      message = entity ⊕ " is back UP.";
      plain_language = entity ⊕ " is healthy again — no action needed.";
    }
      ∷ []
    else if not (status_eq status down || status_eq status hang || status_eq status degraded)
    then []
    else record {
      severity = if status_eq status degraded then "warning" else "critical";
      source_id = source_id;
      title = entity ⊕ " " ⊕ what_of status;
      message = entity ⊕ " changed to " ⊕ status_text status ⊕ ".";
      plain_language =
          entity
          ⊕ " "
          ⊕ what_of status
          ⊕ ". Check the host and the service, then restart it if needed.";
    }
      ∷ []

unfoldable pub notes_of : String → DerivedEvent → List NotificationRow
unfolding build_notification
notes_of source_id (status_change entity old new) = build_notification source_id entity new
notes_of source_id (service_restart entity old_pid new_pid) = []
