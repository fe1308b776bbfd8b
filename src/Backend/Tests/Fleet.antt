-- ===== src/Backend/Tests/Fleet.antt =====
-- Runs of the agents, their monitors and commands, the ticker and the retention of telemetry.
use argus_monitor.Prelude.{
  ◌≡◌, ◌↔◌, ◌⊎◌, refl, none, some, List, [], ◌∷◌, ◌++◌, map, true, false, ◌==◌, find, In, here,
}
use argus_monitor.Prelude.Int.{pos}
use argus_monitor.Backend.Schema.{AgentCommandRow}
use argus_monitor.Backend.Commands.{
  AgentSocket, socket_of, add, remove, send, mark_sent, enqueue_command, list_undelivered,
  dispatch_command,
}
use argus_monitor.Backend.Commands.Delivery.{received}
use argus_monitor.Backend.Commands.Interleaving.{
  System, begin_dispatch, send_next, mark_next, dispatch, send_one, mark_one, Reaches, start, next,
  registered, closed, register, Step, idle,
}
use argus_monitor.Backend.Commands.Interleaving.Sent.{Reaches-sent}
use argus_monitor.Backend.Commands.Interleaving.Sockets.{IsOnSocket}
use argus_monitor.Backend.Commands.Interleaving.Races.{made, lost}
use argus_monitor.Backend.Monitors.{MonitorRow, Config, http}
use argus_monitor.Backend.Monitors.Runners.{agent, prober, Runs, runner_of, runs_iff}
use argus_monitor.Backend.Agents.{
  AgentRow, AgentKeyRow, Fleet, approved, RegisterRequest, register_agent, ingest_gate,
  not_approved, admitted, revoke_agent, update_agent, agent_debug_enabled,
}
use argus_monitor.Backend.Agents.Access.{shut, ingest_gate-revoke_agent}
use argus_monitor.Backend.Agents.Registration.{register-register}
use argus_monitor.Backend.Retention.{TelemetryRow, RetentionRow, logs, type_of, run_retention_sweep}
use argus_monitor.Backend.Retention.Sweep.{Within, run_retention_sweep_iff}
use argus_monitor.Backend.TickerMessages.{TickerRow, warning, user, to_dto, list_active_ticker}
use argus_monitor.Backend.TickerMessages.Audience.{IsShown, list_active_ticker_iff}
use argus_monitor.Backend.Tests.{crypto}

-- An agent that has connected, and once more before the first socket has closed.
abbrev connected : System
connected = registered idle 1 "a1" 1

abbrev reconnected : System
reconnected = registered connected 2 "a1" 1

abbrev second : AgentSocket
second = record { connection = 2; agent_id = "a1"; ready_state = 1; received = [] }

reconnects : Reaches idle reconnected
reconnects = next (next start (register idle 1 "a1" 1)) (register connected 2 "a1" 1)

lost_example :
    (received (dispatch_command [] reconnected.hub "a1" "restart" none "c1" 5).1 "a1"
      ≡ (made "a1" "restart" none "c1" 5 ∷ []))
    × Step reconnected (closed reconnected "a1" ((2, "a1") ∷ []))
    × In (2, "a1") (closed reconnected "a1" ((2, "a1") ∷ [])).live
    × (socket_of (closed reconnected "a1" ((2, "a1") ∷ [])).hub "a1" ≡ none)
    × ((dispatch_command []
          (closed reconnected "a1" ((2, "a1") ∷ [])).hub
          "a1"
          "restart"
          none
          "c1"
          5).1
        ≡ (closed reconnected "a1" ((2, "a1") ∷ [])).hub)
    × (list_undelivered
          (dispatch_command []
            (closed reconnected "a1" ((2, "a1") ∷ [])).hub
            "a1"
            "restart"
            none
            "c1"
            5).0
          "a1"
        ≡ (list_undelivered [] "a1" ++ made "a1" "restart" none "c1" 5 ∷ []))
unfolding add remove
lost_example =
    lost reconnected ((2, "a1") ∷ []) 1 "a1" [] second "restart" none "c1" 5 refl refl (here refl)
      refl refl

-- A dispatch that has run to its end.
abbrev begun : System
begun = begin_dispatch connected "a1" "restart" none "c1" 5

abbrev taken : System
taken = send_next begun [] "a1" (made "a1" "restart" none "c1" 5) [] []

abbrev marked : System
marked = mark_next taken [] "c1" "a1" [] [] 9

dispatched : Reaches idle marked
unfolding enqueue_command send add
dispatched =
    next
      (next
        (next (next start (register idle 1 "a1" 1)) (dispatch connected "a1" "restart" none "c1" 5))
        (send_one begun [] "a1" (made "a1" "restart" none "c1" 5) [] [] refl))
      (mark_one taken [] "c1" "a1" [] [] 9 refl)

abbrev one_row : AgentCommandRow
one_row = record {
  id = "c1";
  agent_id = "a1";
  kind = "restart";
  payload = none;
  status = "sent";
  sent_at = some 9;
  acked_at = none;
  created_at = 5;
}

Reaches-sent_example : (u : System) × Reaches idle u × Reaches u marked × IsOnSocket u.hub "c1"
unfolding enqueue_command mark_sent send add
Reaches-sent_example = Reaches-sent marked dispatched one_row (here refl) refl

abbrev config : Config
config = record { is_server = true; is_default = false; target = some "nas"; others = "" }

abbrev web_check : MonitorRow
web_check = record {
  id = "m1";
  agent_id = "a1";
  kind = http;
  name = "Web";
  enabled = true;
  config = config;
  updated_at = 0;
}

runs_iff_example :
    Runs (web_check ∷ []) web_check prober
    ↔ ((prober ≡ runner_of http true) ⊎ ((prober ≡ agent) × (true ≡ true)))
runs_iff_example = runs_iff (web_check ∷ []) web_check prober (here refl) refl

abbrev host_row : AgentRow
host_row = record {
  id = "a1";
  name = "nas";
  is_device = false;
  hostname = none;
  platform = none;
  address = some "10.0.0.2";
  status = approved;
  version = none;
  last_seen_at = some 4;
  approved_at = some 2;
  push_interval_sec = none;
  metadata = none;
}

abbrev key_row : AgentKeyRow
key_row = record {
  id = "k1";
  agent_id = some "a1";
  label = "NAS";
  key_hash = "h:argus_1";
  disabled = false;
  last_used_at = none;
}

abbrev new_key : AgentKeyRow
new_key = record key_row { id = "k2"; agent_id = none; key_hash = "h:argus_2" }

abbrev fleet : Fleet
fleet = record { agents = host_row ∷ []; keys = key_row ∷ new_key ∷ []; monitors = [] }

let_in : ingest_gate crypto.sha256 fleet (some "argus_1") ≡ admitted "a1"
unfolding ingest_gate
let_in = refl

ingest_gate-revoke_agent_example :
    ingest_gate crypto.sha256 (revoke_agent fleet "a1") (some "argus_1")
    ≡ shut "a1" (ingest_gate crypto.sha256 fleet (some "argus_1"))
ingest_gate-revoke_agent_example =
    ingest_gate-revoke_agent crypto.sha256 fleet "a1" (some "argus_1")

shut_out : ingest_gate crypto.sha256 (revoke_agent fleet "a1") (some "argus_1") ≡ not_approved
unfolding ingest_gate revoke_agent
shut_out = refl

abbrev request : RegisterRequest
request = record {
  name = some "db";
  hostname = none;
  platform = none;
  version = none;
  address = none;
  build_time = some "2026-06-01";
}

register-register_example :
    let once = register_agent fleet new_key request "a2" 7 in
    let bound = record new_key { agent_id = some "a2" } in
    let twice = register_agent once.0 bound request "a3" 8 in
    (find (λ k. k.id == "k2") once.0.keys ≡ some bound)
    × (twice.1.agent_id ≡ once.1.agent_id)
    × (twice.1.status ≡ once.1.status)
    × (map (λ (a : AgentRow). a.id) twice.0.agents ≡ map (λ (a : AgentRow). a.id) once.0.agents)
register-register_example =
    register-register fleet new_key request "a2" 7 request "a3" 8 refl refl refl refl

-- The debug mode that an operator turned on is off after the agent has registered again.
debug_lost :
    agent_debug_enabled
      (register_agent
        (update_agent fleet "a1"
          (record { name = none; push_interval_sec = none; debug = some true }))
        key_row
        request
        "a3"
        8).0
      "a1"
    ≡ false
unfolding agent_debug_enabled register_agent update_agent
debug_lost = refl

abbrev old_log : TelemetryRow
old_log = record { table = logs; key = "a1"; entity = ""; ts = 86400000 }

abbrev week : List RetentionRow
week = record { data_type = "logs"; days = some 7; updated_at = none } ∷ []

run_retention_sweep_iff_example :
    In old_log (run_retention_sweep (old_log ∷ []) week 950400000)
    ↔ (In old_log (old_log ∷ []) × Within week 950400000 (type_of logs) 86400000)
run_retention_sweep_iff_example = run_retention_sweep_iff (old_log ∷ []) week 950400000 old_log

pruned : run_retention_sweep (old_log ∷ []) week 950400000 ≡ []
unfolding run_retention_sweep
pruned = refl

abbrev notice : TickerRow
notice = record {
  id = "t1";
  text = "Maintenance";
  enabled = true;
  severity = warning;
  priority = pos 3;
  starts_at = some (some 100);
  ends_at = none;
  device_group_ids = none;
  user_group_ids = some ("ops" ∷ []);
  created_at = 1;
  updated_at = 1;
}

list_active_ticker_iff_example :
    In (to_dto notice) (list_active_ticker (notice ∷ []) 150 (user ("ops" ∷ [])))
    ↔ IsShown (notice ∷ []) 150 (user ("ops" ∷ [])) (to_dto notice)
list_active_ticker_iff_example =
    list_active_ticker_iff (notice ∷ []) 150 (user ("ops" ∷ [])) (to_dto notice)

shown_to_its_group : list_active_ticker (notice ∷ []) 150 (user ("ops" ∷ [])) ≡ to_dto notice ∷ []
unfolding list_active_ticker
shown_to_its_group = refl

hidden_from_others : list_active_ticker (notice ∷ []) 150 (user ("dev" ∷ [])) ≡ []
unfolding list_active_ticker
hidden_from_others = refl
