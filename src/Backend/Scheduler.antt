-- ===== src/Backend/Scheduler.antt =====
-- The scheduler of the probes that the server runs, apps/backend/src/services/
-- server-monitor-scheduler.ts. The probes are a parameter: the result of each attempt.
pub mod Due
use argus_monitor.Prelude.{
  ℕ, zero, suc, ◌+◌, ◌*◌, String, Option, none, some, List, [], ◌∷◌, map, Bool, true, false, ◌&&◌,
  ◌||◌, not, ◌==◌, find, filter, any, includes, update_where, ltb, if◌then◌else◌,
}
use argus_monitor.Shared.{HealthStatus, up, down}
use argus_monitor.Shared.Schedule.{MonitorSchedule, ScheduleConfig, monitor_schedule}

pub record Monitor : Type 0 where
  pub id : String
  pub kind : String
  pub config : ScheduleConfig

pub record ProbeResult : Type 0 where
  pub is_up : Bool
  pub latency_ms : Option ℕ

-- The retries of a run: attempt `i` is made when the one before it has failed.
unfoldable pub retry : (ℕ → ProbeResult) → ProbeResult → ℕ → ℕ → ProbeResult
retry probe result i zero = result
retry probe result i (suc left) =
    let next = retry probe (probe i) (suc i) left in if result.is_up then result else next

-- The result that a run records.
unfoldable pub run : (ℕ → ProbeResult) → MonitorSchedule → ProbeResult
unfolding retry
run probe sched = retry probe (probe 0) 1 sched.retries

unfoldable pub status_of_run : (ℕ → ProbeResult) → MonitorSchedule → HealthStatus
unfolding run
status_of_run probe sched = if (run probe sched).is_up then up else down

-- The run state of a monitor.
pub record RunState : Type 0 where
  pub id : String
  pub next_due : ℕ
  pub inflight : Bool

abbrev pub States : Type 0
States = List RunState

-- The states of monitors that are not in the worklist are dropped.
unfoldable pub prune : States → List Monitor → States
prune states worklist = filter (λ s. any (λ m. m.id == s.id) worklist) states

-- A monitor without a state is due at once.
abbrev pub ensure : States → String → ℕ → Option RunState → States
ensure states id now (some s) = states
ensure states id now none = record { id = id; next_due = now; inflight = false } ∷ states

abbrev pub state_of : States → String → Option RunState
state_of states id = find (λ s. s.id == id) states

abbrev pub is_due : ℕ → Option RunState → Bool
is_due now none = true
is_due now (some s) = not (s.inflight || ltb now s.next_due)

abbrev pub start : States → String → States
start states id = update_where (λ s. s.id == id) (λ s. record s { inflight = true }) states

-- The loop of a tick: the new states, and the monitors that a run is started of.
unfoldable pub tick : States → List Monitor → ℕ → States × List String
tick states [] now = (states, [])
tick states (m ∷ worklist) now =
    let known = ensure states m.id now (state_of states m.id) in
    let started = tick (start known m.id) worklist now in
    let skipped = tick known worklist now in
    if is_due now (state_of states m.id) then (started.0, m.id ∷ started.1) else skipped

-- The end of a run.
unfoldable pub finish : States → Monitor → ℕ → States
finish states m now =
    update_where (λ s. s.id == m.id)
      (λ s. record s {
        inflight = false;
        next_due = now + (monitor_schedule m.kind m.config).interval_sec * 1000;
      })
      states
