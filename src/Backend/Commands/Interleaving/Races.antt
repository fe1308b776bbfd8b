-- ===== src/Backend/Commands/Interleaving/Races.antt =====
-- Two interleavings that go wrong: a command that is sent twice, and the close of a socket that takes
-- another socket of its agent off the registry.
use mathlib.Core.List.{append_assoc}
use argus_monitor.Prelude.{
  ℕ, ◌≡◌, refl, ap, ◌∙◌, inl, inr, subst, String, Option, none, some, nat_eq, In, List, [], ◌∷◌,
  ◌++◌, true, false, ◌==◌, eq_refl, Bool-cases,
}
use argus_monitor.Backend.Commands.{
  AgentCommandDto, to_dto, AgentSocket, AgentHub, socket_of, is_open, remove, send,
  dispatch_command, Queue, enqueue_command, is_undelivered, list_undelivered,
}
use argus_monitor.Backend.Commands.Delivery.{
  received, online, pushed, send_open, online_pushed, received_pushed, received_of,
}
use argus_monitor.Backend.Commands.Interleaving.{
  Thread, sending, marking, System, sent, Step, dispatch, flush, send_one, close, Reaches, closed,
  start, next,
}

-- The command that a dispatch makes.
abbrev pub made : String → String → Option String → String → ℕ → AgentCommandDto
made agent_id kind payload id now = record {
  id = id;
  agent_id = agent_id;
  kind = kind;
  payload = payload;
  status = "pending";
  created_at = now;
}

undelivered-enqueue :
    (db : Queue) (agent_id kind : String) (payload : Option String) (id : String) (now : ℕ)
    → list_undelivered (enqueue_command db agent_id kind payload id now).0 agent_id
      ≡ list_undelivered db agent_id ++ made agent_id kind payload id now ∷ []
unfolding list_undelivered enqueue_command
undelivered-enqueue [] agent_id kind payload id now = rw (eq_refl agent_id) refl
undelivered-enqueue (r ∷ db) agent_id kind payload id now =
    elim (Bool-cases (is_undelivered agent_id r)) [
      | inl hit ↦
          rw hit
            (ap (λ rest. to_dto r ∷ rest) (undelivered-enqueue db agent_id kind payload id now))
      | inr miss ↦ rw miss (undelivered-enqueue db agent_id kind payload id now)
    ]

-- A send on a socket that is open.
send_open_step :
    (s : System) (before : List Thread) (agent_id : String) (command : AgentCommandDto)
    (rest : List AgentCommandDto) (after : List Thread)
    → online s.hub agent_id ≡ true
    → s.threads ≡ before ++ sending agent_id (command ∷ rest) ∷ after
    → Step s (sent s before agent_id command rest after (pushed s.hub agent_id command, true))
send_open_step s before agent_id command rest after up e =
    subst (λ answer. Step s (sent s before agent_id command rest after answer))
      (send_open s.hub agent_id command up) (send_one s before agent_id command rest after e)

module _ (s : System) (agent_id kind : String) (payload : Option String) (id : String)
    (now : ℕ) where
  abbrev command : AgentCommandDto
  command = made agent_id kind payload id now

  abbrev dispatched : System
  dispatched = record s {
    queue = (enqueue_command s.queue agent_id kind payload id now).0;
    threads = sending agent_id (command ∷ []) ∷ s.threads;
  }

  dispatched_step : Step s dispatched
  unfolding enqueue_command
  dispatched_step = dispatch s agent_id kind payload id now

  abbrev both : System
  both = record dispatched {
    threads = sending agent_id (command ∷ []) ∷ sending agent_id (command ∷ []) ∷ s.threads;
  }

  both_step : list_undelivered s.queue agent_id ≡ [] → Step dispatched both
  both_step none_pending =
      let listed : list_undelivered dispatched.queue agent_id ≡ command ∷ [] =
        (undelivered-enqueue s.queue agent_id kind payload id now
          ∙ ap (λ xs. xs ++ command ∷ []) none_pending) in
      subst
        (λ commands.
          Step dispatched
            (record dispatched { threads = sending agent_id commands ∷ dispatched.threads }))
        listed (flush dispatched agent_id)

  -- When an agent whose socket is open connects between the insert of a command and its send, and
  -- nothing else is pending for it, the dispatch and the flush can both send it the command.
  pub twice :
      online s.hub agent_id ≡ true
      → list_undelivered s.queue agent_id ≡ []
      → (t : System) × Reaches s t
        × (received t.hub agent_id ≡ received s.hub agent_id ++ command ∷ command ∷ [])
  twice up none_pending =
      let hub = pushed s.hub agent_id command in
      let up' : online hub agent_id ≡ true = online_pushed s.hub agent_id command ∙ up in
      let once =
        sent both [] agent_id command [] (sending agent_id (command ∷ []) ∷ s.threads)
          (hub, true) in
      let end' =
        sent once (marking id agent_id [] ∷ []) agent_id command [] s.threads
          (pushed hub agent_id command, true) in
      (
        end',
        next
            (next (next (next start dispatched_step) (both_step none_pending)) (
              send_open_step both [] agent_id command []
                (sending agent_id (command ∷ []) ∷ s.threads) up refl))
            (send_open_step once (marking id agent_id [] ∷ []) agent_id command [] s.threads up'
              refl),
        received_pushed hub agent_id command up'
            ∙ ap (λ xs. xs ++ command ∷ []) (received_pushed s.hub agent_id command up)
            ∙ append_assoc (received s.hub agent_id) (command ∷ []) (command ∷ []),
      )

socket_of-remove :
    (hub : AgentHub) (agent_id : String) → socket_of (remove hub agent_id) agent_id ≡ none
unfolding remove
socket_of-remove [] agent_id = refl
socket_of-remove (x ∷ hub) agent_id = elim (Bool-cases (x.agent_id == agent_id)) [
  | inl own ↦ rw own (socket_of-remove hub agent_id)
  | inr other ↦ rw (other, socket_of-remove hub agent_id) (rw other refl)
]

send_gone :
    (hub : AgentHub) (agent_id : String) (command : AgentCommandDto)
    → socket_of hub agent_id ≡ none
    → send hub agent_id command ≡ (hub, false)
unfolding send
send_gone hub agent_id command gone = rw gone refl

enqueue_made :
    (db : Queue) (agent_id kind : String) (payload : Option String) (id : String) (now : ℕ)
    → (enqueue_command db agent_id kind payload id now).1 ≡ made agent_id kind payload id now
unfolding enqueue_command
enqueue_made db agent_id kind payload id now = refl

-- A dispatch to an agent that the registry does not know.
dispatch_gone :
    (db : Queue) (hub : AgentHub) (agent_id kind : String) (payload : Option String) (id : String)
    (now : ℕ)
    → socket_of hub agent_id ≡ none
    → dispatch_command db hub agent_id kind payload id now
      ≡ ((enqueue_command db agent_id kind payload id now).0, hub)
unfolding dispatch_command
dispatch_gone db hub agent_id kind payload id now gone =
    rw (send_gone hub agent_id (enqueue_command db agent_id kind payload id now).1 gone) refl

-- A dispatch to an agent whose socket is open.
dispatch_open :
    (db : Queue) (hub : AgentHub) (agent_id kind : String) (payload : Option String) (id : String)
    (now : ℕ)
    → online hub agent_id ≡ true
    → received (dispatch_command db hub agent_id kind payload id now).1 agent_id
      ≡ (received hub agent_id ++ made agent_id kind payload id now ∷ [])
unfolding dispatch_command enqueue_command
dispatch_open db hub agent_id kind payload id now up =
    rw (send_open hub agent_id (made agent_id kind payload id now) up)
      (received_pushed hub agent_id (made agent_id kind payload id now) up)

-- Two different sockets of an agent are live, and the registry has the second one, which is open. A command that
-- is dispatched then is put on the second one; but once the first one closes, though the second one is
-- still live, the registry has no socket for the agent, and a command that is dispatched is put on no
-- socket and stays pending, after what was pending.
pub lost :
    (s : System) (before : List (ℕ × String)) (old : ℕ) (agent_id : String)
    (after : List (ℕ × String)) (new : AgentSocket) (kind : String) (payload : Option String)
    (id : String) (now : ℕ)
    → s.live ≡ before ++ (old, agent_id) ∷ after
    → nat_eq old new.connection ≡ false
    → In (new.connection, agent_id) (before ++ after)
    → socket_of s.hub agent_id ≡ some new
    → is_open (some new) ≡ true
    → (received (dispatch_command s.queue s.hub agent_id kind payload id now).1 agent_id
        ≡ (new.received ++ made agent_id kind payload id now ∷ []))
      × Step s (closed s agent_id (before ++ after))
      × In (new.connection, agent_id) (closed s agent_id (before ++ after)).live
      × (socket_of (closed s agent_id (before ++ after)).hub agent_id ≡ none)
      × ((dispatch_command s.queue
            (closed s agent_id (before ++ after)).hub
            agent_id
            kind
            payload
            id
            now).1
          ≡ (closed s agent_id (before ++ after)).hub)
      × (list_undelivered
            (dispatch_command s.queue
              (closed s agent_id (before ++ after)).hub
              agent_id
              kind
              payload
              id
              now).0
            agent_id
          ≡ (list_undelivered s.queue agent_id ++ made agent_id kind payload id now ∷ []))
lost s before old agent_id after new kind payload id now live other second known open_now =
    let gone = socket_of-remove s.hub agent_id in
    let kept = dispatch_gone s.queue (remove s.hub agent_id) agent_id kind payload id now gone in
    (
      dispatch_open s.queue s.hub agent_id kind payload id now (ap is_open known ∙ open_now)
          ∙ ap (λ o. received_of o ++ made agent_id kind payload id now ∷ []) known,
      close s before old agent_id after live,
      second,
      gone,
      ap (λ r. r.1) kept,
      ap (λ r. list_undelivered r.0 agent_id) kept
          ∙ undelivered-enqueue s.queue agent_id kind payload id now,
    )
