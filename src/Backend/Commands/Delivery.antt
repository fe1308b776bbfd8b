-- ===== src/Backend/Commands/Delivery.antt =====
-- A freshly connected agent is sent what was pending for it.
use mathlib.Core.List.{append-nil, append_assoc}
use argus_monitor.Prelude.{
  ℕ, ◌≡◌, refl, sym, ap, ◌∙◌, arith, String, Option, none, some, List, [], ◌∷◌, ◌++◌, map, Bool,
  Bool-cases, inl, inr, true, false, ◌||◌, ◌==◌, eq_iff, eq_refl, filter, update_where, adjust,
  adjusted, find-update_where, any, find-some, Bool-ext, In, here, there, In-filter, In-map, In-any,
  if◌then◌else◌,
}
use argus_monitor.Backend.Schema.{AgentCommandRow}
use argus_monitor.Backend.Commands.{
  AgentCommandDto, to_dto, AgentSocket, AgentHub, socket_of, is_open, send, Queue, mark_sent,
  is_undelivered, list_undelivered, flush_each, flush_pending,
}

-- What an agent was sent on its socket.
abbrev pub received_of : Option AgentSocket → List AgentCommandDto
received_of none = []
received_of (some socket) = socket.received

abbrev pub received : AgentHub → String → List AgentCommandDto
received hub agent_id = received_of (socket_of hub agent_id)

abbrev pub online : AgentHub → String → Bool
online hub agent_id = is_open (socket_of hub agent_id)

abbrev pub appended : AgentCommandDto → AgentSocket → AgentSocket
appended command s = record s { received = s.received ++ command ∷ [] }

abbrev pub pushed : AgentHub → String → AgentCommandDto → AgentHub
pushed hub agent_id command = update_where (λ s. s.agent_id == agent_id) (appended command) hub

pub send_open :
    (hub : AgentHub) (agent_id : String) (command : AgentCommandDto)
    → online hub agent_id ≡ true
    → send hub agent_id command ≡ (pushed hub agent_id command, true)
unfolding send
send_open hub agent_id command up = rw up refl

find_pushed :
    (hub : AgentHub) (agent_id : String) (command : AgentCommandDto)
    → socket_of (pushed hub agent_id command) agent_id
      ≡ adjust (λ s. s.agent_id == agent_id) (appended command) (socket_of hub agent_id)
find_pushed hub agent_id command =
    find-update_where (λ s. s.agent_id == agent_id) (λ s. s.agent_id == agent_id) (appended command)
      hub (λ s. refl)

open_adjust :
    (agent_id : String) (command : AgentCommandDto) (o : Option AgentSocket)
    → is_open (adjust (λ s. s.agent_id == agent_id) (appended command) o) ≡ is_open o
open_adjust agent_id command none = refl
open_adjust agent_id command (some s) = ground arith

pub online_pushed :
    (hub : AgentHub) (agent_id : String) (command : AgentCommandDto)
    → online (pushed hub agent_id command) agent_id ≡ online hub agent_id
online_pushed hub agent_id command =
    ap is_open (find_pushed hub agent_id command)
    ∙ open_adjust agent_id command (socket_of hub agent_id)

received_adjust :
    (agent_id : String) (command : AgentCommandDto) (o : Option AgentSocket)
    → ((s : AgentSocket) → o ≡ some s → (s.agent_id == agent_id) ≡ true)
    → is_open o ≡ true
    → received_of (adjust (λ s. s.agent_id == agent_id) (appended command) o)
      ≡ (received_of o ++ command ∷ [])
received_adjust agent_id command none own up = ground arith
received_adjust agent_id command (some s) own up = rw (own s refl) refl

pub received_pushed :
    (hub : AgentHub) (agent_id : String) (command : AgentCommandDto)
    → online hub agent_id ≡ true
    → received (pushed hub agent_id command) agent_id ≡ (received hub agent_id ++ command ∷ [])
received_pushed hub agent_id command up =
    ap received_of (find_pushed hub agent_id command)
    ∙ received_adjust agent_id command (socket_of hub agent_id)
        (λ s e. (find-some (λ x. x.agent_id == agent_id) hub e).1) up

flush_each-open :
    (db : Queue) (hub : AgentHub) (agent_id : String) (k : AgentCommandDto)
    (ks : List AgentCommandDto) (now : ℕ)
    → online hub agent_id ≡ true
    → flush_each db hub agent_id (k ∷ ks) now
      ≡ flush_each (mark_sent db k.id now) (pushed hub agent_id k) agent_id ks now
unfolding flush_each
flush_each-open db hub agent_id k ks now up = rw (flush_each, send_open hub agent_id k up) refl

-- The loop, over an open socket: what is sent.
flush_each-received :
    (db : Queue) (hub : AgentHub) (agent_id : String) (commands : List AgentCommandDto) (now : ℕ)
    → online hub agent_id ≡ true
    → received (flush_each db hub agent_id commands now).1 agent_id
      ≡ (received hub agent_id ++ commands)
unfolding flush_each
flush_each-received db hub agent_id [] now up = sym (append-nil (received hub agent_id))
flush_each-received db hub agent_id (k ∷ ks) now up =
    rw (flush_each-open db hub agent_id k ks now up) (
      flush_each-received (mark_sent db k.id now) (pushed hub agent_id k) agent_id ks now
        (online_pushed hub agent_id k ∙ up)
      ∙ ap (λ r. r ++ ks) (received_pushed hub agent_id k up)
      ∙ append_assoc (received hub agent_id) (k ∷ []) ks)

abbrev sent : ℕ → AgentCommandRow → AgentCommandRow
sent now r = record r { status = "sent"; sent_at = some now }

abbrev is_named : List AgentCommandDto → AgentCommandRow → Bool
is_named commands r = any (λ k. k.id == r.id) commands

mark_twice :
    (p q : Bool) (now : ℕ) (r : AgentCommandRow)
    → (if p then sent now (if q then sent now r else r) else (if q then sent now r else r))
      ≡ (if q || p then sent now r else r)
mark_twice true true now r = refl
mark_twice true false now r = refl
mark_twice false true now r = refl
mark_twice false false now r = refl

named_kept :
    (b : Bool) (ks : List AgentCommandDto) (now : ℕ) (r : AgentCommandRow)
    → is_named ks (if b then sent now r else r) ≡ is_named ks r
named_kept true ks now r = refl
named_kept false ks now r = refl

eq_sym : (s t : String) → (s == t) ≡ (t == s)
eq_sym s t =
    Bool-ext (s == t) (t == s) (λ h. ground (arith, eq_iff s t, eq_iff t s))
      (λ h. ground (arith, eq_iff s t, eq_iff t s))

update_none : (now : ℕ) (db : Queue) → update_where (is_named []) (sent now) db ≡ db
update_none now [] = refl
update_none now (r ∷ db) = ap (λ x. r ∷ x) (update_none now db)

mark-mark :
    (now : ℕ) (k : AgentCommandDto) (ks : List AgentCommandDto) (db : Queue)
    → update_where (is_named ks) (sent now) (update_where (λ r. r.id == k.id) (sent now) db)
      ≡ update_where (is_named (k ∷ ks)) (sent now) db
mark-mark now k ks [] = refl
mark-mark now k ks (r ∷ db) = rw (mark-mark now k ks db) (
    ap (λ x. x ∷ update_where (is_named (k ∷ ks)) (sent now) db)
      (rw (named_kept (r.id == k.id) ks now r, eq_sym k.id r.id)
        (mark_twice (is_named ks r) (r.id == k.id) now r)))

-- The loop, over an open socket: what is marked.
flush_each-queue :
    (db : Queue) (hub : AgentHub) (agent_id : String) (commands : List AgentCommandDto) (now : ℕ)
    → online hub agent_id ≡ true
    → (flush_each db hub agent_id commands now).0 ≡ update_where (is_named commands) (sent now) db
unfolding flush_each mark_sent
flush_each-queue db hub agent_id [] now up = sym (update_none now db)
flush_each-queue db hub agent_id (k ∷ ks) now up =
    rw (flush_each-open db hub agent_id k ks now up) (
      flush_each-queue (mark_sent db k.id now) (pushed hub agent_id k) agent_id ks now
        (online_pushed hub agent_id k ∙ up)
      ∙ mark-mark now k ks db)

marked_settled :
    (agent_id : String) (now : ℕ) (commands : List AgentCommandDto) (r : AgentCommandRow)
    → (is_undelivered agent_id r ≡ true → is_named commands r ≡ true)
    → is_undelivered agent_id (adjusted (is_named commands) (sent now) r) ≡ false
marked_settled agent_id now commands r h = elim (Bool-cases (is_named commands r)) [
  | inl named ↦ rw named (ground arith)
  | inr other ↦ rw other (ground (arith, h))
]

undelivered_none :
    (agent_id : String) (now : ℕ) (commands : List AgentCommandDto) (db : Queue)
    → ((r : AgentCommandRow)
        → In r db
        → is_undelivered agent_id r ≡ true
        → is_named commands r ≡ true)
    → filter (is_undelivered agent_id) (update_where (is_named commands) (sent now) db) ≡ []
undelivered_none agent_id now commands [] h = refl
undelivered_none agent_id now commands (r ∷ db) h =
    rw (marked_settled agent_id now commands r (h r (here refl)))
      (undelivered_none agent_id now commands db (λ x m. h x (there m)))

listed_named :
    (db : Queue) (agent_id : String) (r : AgentCommandRow)
    → In r db
    → is_undelivered agent_id r ≡ true
    → is_named (list_undelivered db agent_id) r ≡ true
unfolding list_undelivered
listed_named db agent_id r m h =
    In-any (λ k. k.id == r.id) (In-map to_dto (In-filter (is_undelivered agent_id) m h))
      (eq_refl r.id)

list_none :
    (db : Queue) (agent_id : String) (now : ℕ)
    → list_undelivered
        (update_where (is_named (list_undelivered db agent_id)) (sent now) db)
        agent_id
      ≡ []
unfolding list_undelivered
list_none db agent_id now = ap (map to_dto) (
    undelivered_none agent_id now (list_undelivered db agent_id) db
      (λ r m h. listed_named db agent_id r m h))

-- When the socket of an agent is open, a flush sends it what was pending for it, in the order of the
-- queue and after what it was sent before, and leaves nothing pending for it.
pub flush_pending-delivers :
    (db : Queue) (hub : AgentHub) (agent_id : String) (now : ℕ)
    → online hub agent_id ≡ true
    → (received (flush_pending db hub agent_id now).1 agent_id
        ≡ (received hub agent_id ++ list_undelivered db agent_id))
      × (list_undelivered (flush_pending db hub agent_id now).0 agent_id ≡ [])
unfolding flush_pending
flush_pending-delivers db hub agent_id now up = (
  flush_each-received db hub agent_id (list_undelivered db agent_id) now up,
  ap (λ q. list_undelivered q agent_id)
        (flush_each-queue db hub agent_id (list_undelivered db agent_id) now up)
      ∙ list_none db agent_id now,
)

flush_each-waits :
    (db : Queue) (hub : AgentHub) (agent_id : String) (commands : List AgentCommandDto) (now : ℕ)
    → online hub agent_id ≡ false
    → flush_each db hub agent_id commands now ≡ (db, hub)
unfolding flush_each send
flush_each-waits db hub agent_id [] now down = refl
flush_each-waits db hub agent_id (k ∷ ks) now down =
    rw (flush_each, down) (flush_each-waits db hub agent_id ks now down)

-- When it is not open, a flush sends nothing and marks nothing: the commands wait.
flush_pending-waits :
    (db : Queue) (hub : AgentHub) (agent_id : String) (now : ℕ)
    → online hub agent_id ≡ false
    → flush_pending db hub agent_id now ≡ (db, hub)
unfolding flush_pending
flush_pending-waits db hub agent_id now down =
    flush_each-waits db hub agent_id (list_undelivered db agent_id) now down
