-- ===== src/Backend/Commands/Interleaving/Sockets.antt =====
-- What is put on a socket when the registry takes a command, apps/backend/src/services/agent-hub.ts.
use argus_monitor.Prelude.{
  ◌≡◌, refl, ap, inl, inr, subst, arith, String, Option, none, some, List, Bool, true, false, ◌==◌,
  In, here, In-append_right, In-update_where, find-some, Bool-cases, if◌then◌else◌,
}
use argus_monitor.Backend.Commands.{
  AgentCommandDto, AgentSocket, AgentHub, socket_of, is_open, send,
}
use argus_monitor.Backend.Commands.Interleaving.{Thread, System, sent}
use argus_monitor.Backend.Commands.Delivery.{appended, pushed}

-- A command with the id has been put on a socket of the registry.
abbrev pub IsOnSocket : AgentHub → String → Type 0
IsOnSocket hub id =
    (socket : AgentSocket) × In socket hub
    × ((command : AgentCommandDto) × In command socket.received × (command.id ≡ id))

pushed-IsOnSocket :
    (hub : AgentHub) (agent_id : String) (command : AgentCommandDto) (o : Option AgentSocket)
    → socket_of hub agent_id ≡ o
    → is_open o ≡ true
    → IsOnSocket (pushed hub agent_id command) command.id
pushed-IsOnSocket hub agent_id command none e up = absurd (ground arith)
pushed-IsOnSocket hub agent_id command (some x) e up =
    let (m, own) = find-some (λ s. s.agent_id == agent_id) hub e in
    (
      appended command x,
      subst (λ y. In y (pushed hub agent_id command))
          (ap (λ b. if b then appended command x else x) own)
          (In-update_where (λ s. s.agent_id == agent_id) (appended command) m),
      (command, In-append_right x.received (here refl), refl),
    )

pub send-IsOnSocket :
    (hub : AgentHub) (agent_id : String) (command : AgentCommandDto)
    → (send hub agent_id command).1 ≡ true
    → IsOnSocket (send hub agent_id command).0 command.id
unfolding send
send-IsOnSocket hub agent_id command up = elim (Bool-cases (is_open (socket_of hub agent_id))) [
  | inl open_now ↦
      rw open_now (pushed-IsOnSocket hub agent_id command (socket_of hub agent_id) refl open_now)
  | inr down ↦ absurd (let k = (rw down at up) in ground arith)
]

pub sent_on :
    (s : System) (before : List Thread) (agent_id : String) (command : AgentCommandDto)
    (rest : List AgentCommandDto) (after : List Thread) (answer : AgentHub × Bool)
    → answer.1 ≡ true
    → IsOnSocket answer.0 command.id
    → IsOnSocket (sent s before agent_id command rest after answer).hub command.id
sent_on s before agent_id command rest after (hub, true) up h = h
sent_on s before agent_id command rest after (hub, false) up h = absurd (ground arith)
