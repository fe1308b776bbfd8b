-- ===== src/Backend/Commands/Interleaving/Logged.antt =====
-- What each step of an interleaving keeps of the commands that are marked as sent, or are about to be:
-- a predicate that holds of every id on a socket holds of their ids,
-- apps/backend/src/services/agent-commands.ts.
use argus_monitor.Prelude.{
  ℕ, ◌≡◌, refl, sym, ap, ◌∙◌, inl, inr, subst, arith, String, Option, List, [], ◌∷◌, ◌++◌, Bool,
  true, false, ◌==◌, eq_iff, In, here, there, In-append, In-append_left, In-append_right,
  update_where_In, Bool-cases,
}
use argus_monitor.Backend.Schema.{AgentCommandRow}
use argus_monitor.Backend.Commands.{
  AgentCommandDto, AgentHub, send, enqueue_command, mark_sent, mark_acked,
}
use argus_monitor.Backend.Commands.Interleaving.{
  Thread, sending, marking, System, begin_dispatch, begin_flush, sent, mark_next, Step, dispatch,
  flush, send_one, mark_one, ack, register, register_late, turn, close,
}
use argus_monitor.Backend.Commands.Interleaving.Sockets.{IsOnSocket, send-IsOnSocket, sent_on}

module _ (T : String → Type 0) where
  -- What a thread is about to mark was sent.
  abbrev pub WasSent : Thread → Type 0
  WasSent (sending agent_id commands) = Unit {0}
  WasSent (marking id agent_id commands) = T id

  pub record IsLogged (s : System) : Type 0 where
    pub rows : (r : AgentCommandRow) → In r s.queue → r.status ≡ "sent" → T r.id
    pub threads : (t : Thread) → In t s.threads → WasSent t

  -- Another thread in the place of one.
  replaced :
      (before : List Thread) (new : Thread) (after : List Thread) (t : Thread)
      → ((u : Thread) → In u before → WasSent u)
      → WasSent new
      → ((u : Thread) → In u after → WasSent u)
      → In t (before ++ new ∷ after)
      → WasSent t
  replaced before new after t hb hn ha m = elim (In-append before m) [
    | inl b ↦ hb t b
    | inr n ↦ place n
  ]
    where
      place : In t (new ∷ after) → WasSent t
      place (here e) = subst (WasSent) (sym e) hn
      place (there k) = ha t k

  module _ (s : System) (before : List Thread) (old : Thread) (after : List Thread)
      (e : s.threads ≡ before ++ old ∷ after) (g : IsLogged s) where
    before_sent : (u : Thread) → In u before → WasSent u
    before_sent u m = g.threads u (subst (In u) (sym e) (In-append_left (old ∷ after) m))

    after_sent : (u : Thread) → In u after → WasSent u
    after_sent u m = g.threads u (subst (In u) (sym e) (In-append_right before (there m)))

    old_sent : WasSent old
    old_sent = g.threads old (subst (In old) (sym e) (In-append_right before (here refl)))

  dispatch-IsLogged :
      (s : System) (agent_id kind : String) (payload : Option String) (id : String) (now : ℕ)
      → IsLogged s
      → IsLogged (begin_dispatch s agent_id kind payload id now)
  unfolding enqueue_command
  dispatch-IsLogged s agent_id kind payload id now g = record {
    rows = λ r m status. elim (In-append s.queue m) [
      | inl old ↦ g.rows r old status
      | inr new ↦ fresh r new status
    ];
    threads = λ t m. pushed t m;
  }
    where
      fresh :
          (r : AgentCommandRow)
          → In r (
              record {
                id = id;
                agent_id = agent_id;
                kind = kind;
                payload = payload;
                status = "pending";
                sent_at = Option.none;
                acked_at = Option.none;
                created_at = now;
              }
              ∷ [])
          → r.status ≡ "sent"
          → T r.id
      fresh r (here same) status =
          absurd (cc (sym status, ap (λ (x : AgentCommandRow). x.status) same))
      fresh r (there m) status = elim m [ ]

      pushed :
          (t : Thread) → In t (begin_dispatch s agent_id kind payload id now).threads → WasSent t
      pushed t (here same) = subst (WasSent) (sym same) tt
      pushed t (there m) = g.threads t m

  sent-IsLogged :
      (s : System) (before : List Thread) (agent_id : String) (command : AgentCommandDto)
      (rest : List AgentCommandDto) (after : List Thread) (answer : AgentHub × Bool)
      → s.threads ≡ before ++ sending agent_id (command ∷ rest) ∷ after
      → (answer.1 ≡ true → T command.id)
      → IsLogged s
      → IsLogged (sent s before agent_id command rest after answer)
  sent-IsLogged s before agent_id command rest after (hub, true) e took g = record {
    rows = g.rows;
    threads = λ t m.
        replaced before (marking command.id agent_id rest) after t
          (before_sent s before (sending agent_id (command ∷ rest)) after e g) (took refl)
          (after_sent s before (sending agent_id (command ∷ rest)) after e g) m;
  }
  sent-IsLogged s before agent_id command rest after (hub, false) e took g = record {
    rows = g.rows;
    threads = λ t m.
        replaced before (sending agent_id rest) after t
          (before_sent s before (sending agent_id (command ∷ rest)) after e g) tt
          (after_sent s before (sending agent_id (command ∷ rest)) after e g) m;
  }

  mark-IsLogged :
      (s : System) (before : List Thread) (id agent_id : String) (rest : List AgentCommandDto)
      (after : List Thread) (now : ℕ)
      → s.threads ≡ before ++ marking id agent_id rest ∷ after
      → IsLogged s
      → IsLogged (mark_next s before id agent_id rest after now)
  unfolding mark_sent
  mark-IsLogged s before id agent_id rest after now e g = record {
    rows = λ r m status.
        let (x, n, same) =
          update_where_In (λ r. r.id == id)
            (λ r. record r { status = "sent"; sent_at = Option.some now }) s.queue m in
        elim (Bool-cases (x.id == id)) [
          | inl hit ↦
              let own : x.id ≡ id = (eq_iff x.id id).0 hit in
              let kept : r.id ≡ x.id = ground (arith, ap (λ (y : AgentCommandRow). y.id) same) in
              subst T (sym own ∙ sym kept) (old_sent s before (marking id agent_id rest) after e g)
          | inr miss ↦
              let whole : r ≡ x = (rw miss at same) in
              subst (λ (y : AgentCommandRow). T y.id) (sym whole)
                (g.rows x n (ap (λ (y : AgentCommandRow). y.status) (sym whole) ∙ status))
        ];
    threads = λ t m.
        replaced before (sending agent_id rest) after t
          (before_sent s before (marking id agent_id rest) after e g) tt
          (after_sent s before (marking id agent_id rest) after e g) m;
  }

  ack-IsLogged :
      (s : System) (id : String) (now : ℕ)
      → IsLogged s
      → IsLogged (record s { queue = mark_acked s.queue id now })
  unfolding mark_acked
  ack-IsLogged s id now g = record {
    rows = λ r m status.
        let (x, n, same) =
          update_where_In (λ r. r.id == id)
            (λ r. record r { status = "acked"; acked_at = Option.some now }) s.queue m in
        elim (Bool-cases (x.id == id)) [
          | inl hit ↦
              let acked : r ≡ record x { status = "acked"; acked_at = Option.some now } =
                (rw hit at same) in
              absurd (cc (sym status, ap (λ (y : AgentCommandRow). y.status) acked))
          | inr miss ↦
              let whole : r ≡ x = (rw miss at same) in
              subst (λ (y : AgentCommandRow). T y.id) (sym whole)
                (g.rows x n (ap (λ (y : AgentCommandRow). y.status) (sym whole) ∙ status))
        ];
    threads = g.threads;
  }

  flush-IsLogged : (s : System) (agent_id : String) → IsLogged s → IsLogged (begin_flush s agent_id)
  flush-IsLogged s agent_id g = record { rows = g.rows; threads = λ t m. pushed t m }
    where
      pushed : (t : Thread) → In t (begin_flush s agent_id).threads → WasSent t
      pushed t (here same) = subst (WasSent) (sym same) tt
      pushed t (there m) = g.threads t m

  pub Step-IsLogged :
      {s t : System}
      → Step s t
      → ((id : String) → IsOnSocket t.hub id → T id)
      → IsLogged s
      → IsLogged t
  Step-IsLogged (dispatch s agent_id kind payload id now) took g =
      dispatch-IsLogged s agent_id kind payload id now g
  Step-IsLogged (flush s agent_id) took g = flush-IsLogged s agent_id g
  Step-IsLogged (send_one s before agent_id command rest after e) took g =
      sent-IsLogged s before agent_id command rest after (send s.hub agent_id command) e
        (λ up. took command.id (
          sent_on s before agent_id command rest after (send s.hub agent_id command) up
            (send-IsOnSocket s.hub agent_id command up)))
        g
  Step-IsLogged (mark_one s before id agent_id rest after now e) took g =
      mark-IsLogged s before id agent_id rest after now e g
  Step-IsLogged (ack s id now) took g = ack-IsLogged s id now g
  Step-IsLogged (register s connection agent_id ready_state) took g = record {
    rows = g.rows;
    threads = g.threads;
  }
  Step-IsLogged (register_late s connection agent_id) took g = record {
    rows = g.rows;
    threads = g.threads;
  }
  Step-IsLogged (turn s connection ready_state) took g = record {
    rows = g.rows;
    threads = g.threads;
  }
  Step-IsLogged (close s before connection agent_id after e) took g = record {
    rows = g.rows;
    threads = g.threads;
  }
