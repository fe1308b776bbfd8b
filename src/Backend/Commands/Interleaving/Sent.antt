-- ===== src/Backend/Commands/Interleaving/Sent.antt =====
-- A command that is marked as sent was put on a socket, in every interleaving.
use argus_monitor.Prelude.{◌≡◌, String, In}
use argus_monitor.Backend.Schema.{AgentCommandRow}
use argus_monitor.Backend.Commands.Interleaving.{
  Thread, sending, marking, System, Step, Reaches, start, next, idle,
}
use argus_monitor.Backend.Commands.Interleaving.Sockets.{IsOnSocket}
use argus_monitor.Backend.Commands.Interleaving.Logged.{WasSent, IsLogged, Step-IsLogged}

-- A command with the id was put on a socket in a state on the way.
abbrev OnTheWay : System → String → Type 0
OnTheWay s id = (u : System) × Reaches idle u × Reaches u s × IsOnSocket u.hub id

later : {s t : System} → Step s t → (id : String) → OnTheWay s id → OnTheWay t id
later step id (u, first, rest, on) = (u, first, next rest step, on)

IsLogged-later : {s t u : System} → Step s t → IsLogged (OnTheWay s) u → IsLogged (OnTheWay t) u
IsLogged-later {s} {t} step g = record {
  rows = λ r m status. later step r.id (g.rows r m status);
  threads = λ k m. thread k (g.threads k m);
}
  where
    thread : (k : Thread) → WasSent (OnTheWay s) k → WasSent (OnTheWay t) k
    thread (sending agent_id commands) h = tt
    thread (marking id agent_id commands) h = later step id h

Reaches-IsLogged : {s : System} → Reaches idle s → IsLogged (OnTheWay s) s
Reaches-IsLogged start = record { rows = λ r m. elim m [ ]; threads = λ t m. elim m [ ] }
Reaches-IsLogged (next {u = u} steps step) =
    Step-IsLogged (OnTheWay u) step (λ id on. (u, next steps step, start, on))
      (IsLogged-later step (Reaches-IsLogged steps))

-- However dispatches, flushes, acknowledgements and the sockets of agents interleave at their awaits,
-- from an empty queue with no socket: for a command that the queue shows as sent, there is a state on
-- the way in which a command with its id is among what was sent on a socket of the registry.
pub Reaches-sent :
    (s : System)
    → Reaches idle s
    → (r : AgentCommandRow) → In r s.queue
    → r.status ≡ "sent"
    → (u : System) × Reaches idle u × Reaches u s × IsOnSocket u.hub r.id
Reaches-sent s steps = (Reaches-IsLogged steps).rows
