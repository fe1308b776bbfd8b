-- ===== src/Core/Diff.antt =====
-- Event derivation, packages/core/src/diff.ts.
pub mod Events
pub mod Clients
use argus_monitor.Prelude.{
  ℕ, ◌+◌, ◌*◌, String, Option, none, some, List, [], ◌∷◌, ◌++◌, Bool, true, false, ◌&&◌, ◌||◌, not,
  ltb, includes, if◌then◌else◌,
}
use argus_monitor.Prelude.Int.{ℤ, is_positive, int_eq}
use argus_monitor.Shared.{HealthStatus, status_eq}

-- An absent, undefined or null `pid` is `none`: the code reads it by `?? null`.
pub record UnitSample : Type 0 where
  pub entity : String
  pub status : HealthStatus
  pub pid : Option ℤ

pub data DerivedEvent : Type 0 where
  status_change : String → Option HealthStatus → HealthStatus → DerivedEvent
  service_restart : String → ℤ → ℤ → DerivedEvent

-- `prev.get(entity)`.
abbrev pub Snapshot : Type 0
Snapshot = String → Option UnitSample

-- The first `push` of a round.
unfoldable pub change_events : Option UnitSample → UnitSample → List DerivedEvent
change_events none sample = status_change sample.entity none sample.status ∷ []
change_events (some old) sample =
    if not (status_eq old.status sample.status)
    then status_change sample.entity (some old.status) sample.status ∷ []
    else []

-- The second `push` of a round, on the two pids.
unfoldable pub restart_events : String → Option ℤ → Option ℤ → List DerivedEvent
restart_events entity (some old_pid) (some new_pid) =
    if is_positive old_pid && is_positive new_pid && not (int_eq old_pid new_pid)
    then service_restart entity old_pid new_pid ∷ []
    else []
restart_events entity _ _ = []

-- `old?.pid ?? null`.
abbrev pub old_pid_of : Option UnitSample → Option ℤ
old_pid_of none = none
old_pid_of (some old) = old.pid

-- One round of the loop over the current samples.
unfoldable pub sample_events : Snapshot → UnitSample → List DerivedEvent
unfolding change_events restart_events
sample_events prev sample =
    change_events (prev sample.entity) sample
    ++ restart_events sample.entity (old_pid_of (prev sample.entity)) sample.pid

unfoldable pub diff_states : Snapshot → List UnitSample → List DerivedEvent
unfolding sample_events
diff_states prev [] = []
diff_states prev (sample ∷ current) = sample_events prev sample ++ diff_states prev current

pub data ClientEvent : Type 0 where
  client_connect client_disconnect : String → ClientEvent

-- The two loops of `diffClients`: the clients of the first set that the second lacks.
unfoldable pub missing_events :
    (String → ClientEvent) → List String → List String → List ClientEvent
missing_events event others [] = []
missing_events event others (client ∷ clients) =
    let rest = missing_events event others clients in
    if not (includes others client) then event client ∷ rest else rest

-- Sets are lists of their elements, in the order of iteration.
unfoldable pub diff_clients : List String → List String → List ClientEvent
unfolding missing_events
diff_clients prev current =
    missing_events client_connect prev current ++ missing_events client_disconnect current prev

-- `parsed` is `Date.parse(lastSeenIso)`, with `none` for NaN. Instants are milliseconds since the
-- epoch, so `now - last > threshold` is written without a subtraction.
unfoldable pub is_stale : Option ℕ → ℕ → ℕ → Bool
is_stale none now threshold_sec = true
is_stale (some last_seen_ms) now threshold_sec = ltb (last_seen_ms + threshold_sec * 1000) now
