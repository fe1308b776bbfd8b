-- ===== src/Backend/Tests/Monitoring.antt =====
-- Runs of the ingest pipeline, the command queue, the scans and the scheduler.
use argus_monitor.Prelude.{ℕ, ◌+◌, ◌≡◌, refl, none, some, List, [], ◌∷◌, ◌++◌, true, nat_eq}
use argus_monitor.Prelude.Int.{pos, negsuc}
use argus_monitor.Shared.{up, down}
use argus_monitor.Shared.Schedule.{ScheduleConfig}
use argus_monitor.Backend.Pipeline.{UnitSample, Telemetry, process_units}
use argus_monitor.Backend.Pipeline.Uptime.{covered, added, process_units-covered}
use argus_monitor.Backend.Commands.{AgentHub, Queue, list_undelivered, flush_pending}
use argus_monitor.Backend.Commands.Delivery.{received, flush_pending-delivers}
use argus_monitor.Backend.Scans.{Entry, new_entry, run_scan, pause_scan, wait_if_paused}
use argus_monitor.Backend.Scans.Coherence.{
  begin, pause, check, Reachable, start, next, is_coherent, Reachable-coherent,
}
use argus_monitor.Backend.Scheduler.{Monitor, ProbeResult, States}

abbrev telemetry : Telemetry
telemetry = record {
  unit_states =
      record {
        source_id = "a1";
        entity = "nginx";
        status = up;
        pid = some (pos 12);
        critical = true;
        sample = none;
        updated_at = 5000;
      }
      ∷ [];
  uptime_buckets =
      record { source_id = "a1"; entity = "nginx"; bucket_start = 0; up_sec = 3; total_sec = 5 }
      ∷ [];
  status_events = [];
  logs = [];
  notifications = [];
}

abbrev batch : List UnitSample
batch =
    record { entity = "nginx"; status = down; pid = none; critical = some true; meta = none } ∷ []

process_units-covered_example :
    covered "a1" "nginx" (process_units telemetry "a1" batch 65000).uptime_buckets
    ≡ 5 + added telemetry "a1" "nginx" batch 65000
process_units-covered_example = process_units-covered telemetry "a1" "nginx" batch 65000

abbrev queue : Queue
queue =
    record {
      id = "c1";
      agent_id = "a1";
      kind = "restart";
      payload = none;
      status = "pending";
      sent_at = none;
      acked_at = none;
      created_at = 0;
    }
    ∷ []

abbrev hub : AgentHub
hub = record { connection = 1; agent_id = "a1"; ready_state = 1; received = [] } ∷ []

flush_pending-delivers_example :
    (received (flush_pending queue hub "a1" 3).1 "a1"
      ≡ (received hub "a1" ++ list_undelivered queue "a1"))
    × (list_undelivered (flush_pending queue hub "a1" 3).0 "a1" ≡ [])
flush_pending-delivers_example = flush_pending-delivers queue hub "a1" 3 refl

abbrev held : Entry
held = wait_if_paused (pause_scan (run_scan new_entry 5))

held-Reachable : Reachable held
unfolding pause_scan run_scan
held-Reachable =
    next (next (next start (begin new_entry 5)) (pause (run_scan new_entry 5)))
      (check (pause_scan (run_scan new_entry 5)) refl)

Reachable-coherent_example : is_coherent held ≡ true
Reachable-coherent_example = Reachable-coherent held-Reachable

abbrev config : ScheduleConfig
config = record {
  interval = some (pos 1);
  retries = some (pos 99);
  retry_interval = none;
  count = some (negsuc 0);
}

abbrev monitors : List Monitor
monitors =
    record { id = "m1"; kind = "ping"; config = config }
    ∷ record { id = "m2"; kind = "http"; config = config }
    ∷ []

abbrev states : States
states = record { id = "m1"; next_due = 0; inflight = true } ∷ []

abbrev probes : ℕ → ProbeResult
probes i = record { is_up = nat_eq i 2; latency_ms = none }
