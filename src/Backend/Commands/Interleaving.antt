-- ===== src/Backend/Commands/Interleaving.antt =====
-- The commands of the agents where operations meet at their awaits: apps/backend/src/services/
-- agent-commands.ts, agent-hub.ts and plugins/agent-ws.ts. A thread is a dispatch or a flush that has
-- begun: the commands that it has yet to send, or the one that it sent and has yet to mark. `live` holds
-- the sockets whose `close` event is yet to come, each with the agent that its handler's `agentId` names.
pub mod Sockets
pub mod Logged
pub mod Sent
pub mod Races
use argus_monitor.Prelude.{
  ℕ, ◌≡◌, String, Option, List, [], ◌∷◌, ◌++◌, Bool, true, false, not, nat_eq, filter, update_where,
  if◌then◌else◌,
}
use argus_monitor.Backend.Commands.{
  AgentCommandDto, AgentSocket, AgentHub, remove, add, send, Queue, enqueue_command, mark_sent,
  mark_acked, list_undelivered,
}

pub data Thread : Type 0 where
  sending : String → List AgentCommandDto → Thread
  marking : (id : String) → String → List AgentCommandDto → Thread

pub record System : Type 0 where
  pub queue : Queue
  pub hub : AgentHub
  pub threads : List Thread
  pub live : List (ℕ × String)

-- The part of `dispatchCommand` before the insert has returned.
abbrev pub begin_dispatch : System → String → String → Option String → (id : String) → ℕ → System
begin_dispatch s agent_id kind payload id now =
    let (queue, command) = enqueue_command s.queue agent_id kind payload id now in
    record s { queue = queue; threads = sending agent_id (command ∷ []) ∷ s.threads }

-- The query of `flushPending`.
abbrev pub begin_flush : System → String → System
begin_flush s agent_id = record s {
  threads = sending agent_id (list_undelivered s.queue agent_id) ∷ s.threads;
}

-- A thread sends its next command; it goes on to mark it only if the socket took it.
abbrev pub sent :
    System
    → List Thread
    → String
    → AgentCommandDto
    → List AgentCommandDto
    → List Thread
    → AgentHub × Bool
    → System
sent s before agent_id command rest after (hub, true) = record s {
  hub = hub;
  threads = before ++ marking command.id agent_id rest ∷ after;
}
sent s before agent_id command rest after (hub, false) = record s {
  hub = hub;
  threads = before ++ sending agent_id rest ∷ after;
}

abbrev pub send_next :
    System → List Thread → String → AgentCommandDto → List AgentCommandDto → List Thread → System
send_next s before agent_id command rest after =
    sent s before agent_id command rest after (send s.hub agent_id command)

abbrev pub mark_next :
    System → List Thread → String → String → List AgentCommandDto → List Thread → ℕ → System
mark_next s before id agent_id rest after now = record s {
  queue = mark_sent s.queue id now;
  threads = before ++ sending agent_id rest ∷ after;
}

-- What was sent so far on a connection that the registry knows. A connection that registers as a
-- second agent has an entry for each of the two; the second one begins with what was sent so far.
abbrev received_on : AgentHub → ℕ → List AgentCommandDto
received_on [] connection = []
received_on (socket ∷ hub) connection =
    let rest = received_on hub connection in
    if nat_eq socket.connection connection then socket.received else rest

-- A socket that has the state given.
abbrev socket_on : AgentHub → ℕ → String → ℕ → AgentSocket
socket_on hub connection agent_id ready_state = record {
  connection = connection;
  agent_id = agent_id;
  ready_state = ready_state;
  received = received_on hub connection;
}

-- The `register` message of a connection: its handler's `agentId` is the agent from then on.
abbrev pub registered : System → ℕ → String → ℕ → System
registered s connection agent_id ready_state = record s {
  hub = add s.hub (socket_on s.hub connection agent_id ready_state);
  live = (connection, agent_id) ∷ filter (λ l. not (nat_eq l.0 connection)) s.live;
}

-- The registration of a connection that has closed while its agent was looked up.
abbrev registered_late : System → ℕ → String → System
registered_late s connection agent_id = record s {
  hub = add s.hub (socket_on s.hub connection agent_id 3);
}

-- The `readyState` of a connection, which the socket's own library changes.
abbrev turned : System → ℕ → ℕ → System
turned s connection ready_state = record s {
  hub =
      update_where (λ x. nat_eq x.connection connection)
        (λ x. record x { ready_state = ready_state }) s.hub;
}

-- The `close` event of a connection of the agent, which leaves the other ones live.
abbrev pub closed : System → String → List (ℕ × String) → System
closed s agent_id others = record s { hub = remove s.hub agent_id; live = others }

-- One step of one thread, or of the world: a new request, a message or a socket.
pub data Step : System → System → Type 0 where
  dispatch :
      (s : System) (agent_id kind : String) (payload : Option String) (id : String) (now : ℕ)
      → Step s (begin_dispatch s agent_id kind payload id now)
  flush : (s : System) (agent_id : String) → Step s (begin_flush s agent_id)
  send_one :
      (s : System) (before : List Thread) (agent_id : String) (command : AgentCommandDto)
      (rest : List AgentCommandDto) (after : List Thread)
      → s.threads ≡ before ++ sending agent_id (command ∷ rest) ∷ after
      → Step s (send_next s before agent_id command rest after)
  mark_one :
      (s : System) (before : List Thread) (id agent_id : String) (rest : List AgentCommandDto)
      (after : List Thread) (now : ℕ)
      → s.threads ≡ before ++ marking id agent_id rest ∷ after
      → Step s (mark_next s before id agent_id rest after now)
  ack :
      (s : System) (id : String) (now : ℕ) → Step s (record s { queue = mark_acked s.queue id now })
  register :
      (s : System) (connection : ℕ) (agent_id : String) (ready_state : ℕ)
      → Step s (registered s connection agent_id ready_state)
  register_late :
      (s : System) (connection : ℕ) (agent_id : String)
      → Step s (registered_late s connection agent_id)
  turn : (s : System) (connection ready_state : ℕ) → Step s (turned s connection ready_state)
  close :
      (s : System) (before : List (ℕ × String)) (connection : ℕ) (agent_id : String)
      (after : List (ℕ × String))
      → s.live ≡ before ++ (connection, agent_id) ∷ after
      → Step s (closed s agent_id (before ++ after))

pub data Reaches (s : System) : System → Type 0 where
  start : Reaches s s
  next : {t u : System} → Reaches s t → Step t u → Reaches s u

-- No command, no socket and no thread.
abbrev pub idle : System
idle = record { queue = []; hub = []; threads = []; live = [] }
