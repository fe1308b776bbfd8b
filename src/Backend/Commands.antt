-- ===== src/Backend/Commands.antt =====
-- The queue of commands for the agents, apps/backend/src/services/agent-commands.ts, and the registry
-- of their sockets, apps/backend/src/services/agent-hub.ts. A socket is its state and what was sent on
-- it; a payload is the text of its JSON.
pub mod Delivery
pub mod Interleaving
use argus_monitor.Prelude.{
  ℕ, String, Option, none, some, List, [], ◌∷◌, ◌++◌, map, Bool, true, false, ◌&&◌, not, ◌==◌, find,
  filter, update_where, is_null, nat_eq, if◌then◌else◌,
}
use argus_monitor.Backend.Schema.{AgentCommandRow}

pub record AgentCommandDto : Type 0 where
  pub id : String
  pub agent_id : String
  pub kind : String
  pub payload : Option String
  pub status : String
  pub created_at : ℕ

abbrev pub to_dto : AgentCommandRow → AgentCommandDto
to_dto r = record {
  id = r.id;
  agent_id = r.agent_id;
  kind = r.kind;
  payload = r.payload;
  status = r.status;
  created_at = r.created_at;
}

-- A connected socket of an agent: `connection` tells which socket it is, and `received` is what was
-- sent on it, the oldest first.
pub record AgentSocket : Type 0 where
  pub connection : ℕ
  pub agent_id : String
  pub ready_state : ℕ
  pub received : List AgentCommandDto

-- The map of the sockets: one at most of an agent.
abbrev pub AgentHub : Type 0
AgentHub = List AgentSocket

abbrev pub socket_of : AgentHub → String → Option AgentSocket
socket_of hub agent_id = find (λ s. s.agent_id == agent_id) hub

unfoldable pub remove : AgentHub → String → AgentHub
remove hub agent_id = filter (λ s. not (s.agent_id == agent_id)) hub

unfoldable pub add : AgentHub → AgentSocket → AgentHub
unfolding remove
add hub socket = socket ∷ remove hub socket.agent_id

unfoldable pub is_online : AgentHub → String → Bool
is_online hub agent_id = not (is_null (socket_of hub agent_id))

-- OPEN is 1.
abbrev pub is_open : Option AgentSocket → Bool
is_open none = false
is_open (some socket) = nat_eq socket.ready_state 1

unfoldable pub send : AgentHub → String → AgentCommandDto → AgentHub × Bool
send hub agent_id command = if not (is_open (socket_of hub agent_id)) then (hub, false) else (
  update_where (λ s. s.agent_id == agent_id)
      (λ s. record s { received = s.received ++ command ∷ [] }) hub,
  true,
)

abbrev pub Queue : Type 0
Queue = List AgentCommandRow

unfoldable pub enqueue_command :
    Queue → String → String → Option String → (id : String) → ℕ → Queue × AgentCommandDto
enqueue_command db agent_id kind payload id now =
    let row : AgentCommandRow = record {
      id = id;
      agent_id = agent_id;
      kind = kind;
      payload = payload;
      status = "pending";
      sent_at = none;
      acked_at = none;
      created_at = now;
    } in
    (db ++ row ∷ [], to_dto row)

unfoldable pub mark_sent : Queue → String → ℕ → Queue
mark_sent db id now =
    update_where (λ r. r.id == id) (λ r. record r { status = "sent"; sent_at = some now }) db

unfoldable pub mark_acked : Queue → String → ℕ → Queue
mark_acked db id now =
    update_where (λ r. r.id == id) (λ r. record r { status = "acked"; acked_at = some now }) db

unfoldable pub list_commands : Queue → String → List AgentCommandDto
list_commands db agent_id = map to_dto (filter (λ r. r.agent_id == agent_id) db)

abbrev pub is_undelivered : String → AgentCommandRow → Bool
is_undelivered agent_id r = r.agent_id == agent_id && r.status == "pending"

unfoldable pub list_undelivered : Queue → String → List AgentCommandDto
list_undelivered db agent_id = map to_dto (filter (is_undelivered agent_id) db)

-- Marked when it was sent.
abbrev pub mark_if : Queue → AgentHub × Bool → String → ℕ → Queue × AgentHub
mark_if db (hub, true) id now = (mark_sent db id now, hub)
mark_if db (hub, false) id now = (db, hub)

unfoldable pub dispatch_command :
    Queue → AgentHub → String → String → Option String → (id : String) → ℕ → Queue × AgentHub
dispatch_command db hub agent_id kind payload id now =
    let (queue, command) = enqueue_command db agent_id kind payload id now in
    mark_if queue (send hub agent_id command) command.id now

-- The loop over the commands that were listed when it began.
unfoldable pub flush_each : Queue → AgentHub → String → List AgentCommandDto → ℕ → Queue × AgentHub
flush_each db hub agent_id [] now = (db, hub)
flush_each db hub agent_id (command ∷ commands) now =
    let (queue, sockets) = mark_if db (send hub agent_id command) command.id now in
    flush_each queue sockets agent_id commands now

unfoldable pub flush_pending : Queue → AgentHub → String → ℕ → Queue × AgentHub
unfolding flush_each
flush_pending db hub agent_id now = flush_each db hub agent_id (list_undelivered db agent_id) now
