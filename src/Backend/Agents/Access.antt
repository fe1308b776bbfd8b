-- ===== src/Backend/Agents/Access.antt =====
-- Which requests of agents are let in, and that a revocation shuts an agent out.
use argus_monitor.Prelude.{
  ◌≡◌, ◌↔◌, inl, inr, refl, ap, ◌∙◌, arith, String, Option, none, some, true, false, not, ◌==◌,
  ◌&&◌, eq_iff, find, adjust, find-update_where, find-some, Bool-cases, Option-cases, if◌then◌else◌,
}
use argus_monitor.Backend.Agents.{
  approved, revoked, AgentRow, AgentKeyRow, Fleet, agent_by, Gate, not_approved, admitted,
  enabled_key, resolve_agent_key, gate_agent, gate_key, ingest_gate, is_approved,
  is_approved_status, revoke_agent,
}

is_approved-revoke_agent :
    (db : Fleet) (id other : String)
    → is_approved (revoke_agent db id) other ≡ (not (other == id) && is_approved db other)
unfolding is_approved revoke_agent
is_approved-revoke_agent db id other =
    ap is_approved_status (
      find-update_where (λ (a : AgentRow). a.id == other) (λ a. a.id == id)
        (λ a. record a { status = revoked }) db.agents (λ a. refl))
    ∙ row (agent_by db.agents other)
        (λ a e. (find-some (λ (a : AgentRow). a.id == other) db.agents e).1)
  where
    row :
        (o : Option AgentRow)
        → ((a : AgentRow) → o ≡ some a → (a.id == other) ≡ true)
        → is_approved_status (adjust (λ a. a.id == id) (λ a. record a { status = revoked }) o)
          ≡ (not (other == id) && is_approved_status o)
    row none own = ground arith
    row (some a) own =
        ground (arith, own a refl, eq_iff a.id other, eq_iff a.id id, eq_iff other id)

-- A gate that lets one agent in no more.
abbrev pub shut : String → Gate → Gate
shut id (admitted agent_id) = if agent_id == id then not_approved else admitted agent_id
shut id gate = gate

module _ (sha256 : String → String) where
  -- What lets a request in: a key that is not disabled and is bound to an agent that is approved.
  pub record Admits (db : Fleet) (raw agent_id : String) : Type 0 where
    pub key : AgentKeyRow
    pub presented : (raw == "") ≡ false
    pub found : find (λ k. k.key_hash == sha256 raw) db.keys ≡ some key
    pub enabled : key.disabled ≡ false
    pub bound : key.agent_id ≡ some agent_id
    pub named : (agent_id == "") ≡ false
    pub row : AgentRow
    pub registered : agent_by db.agents agent_id ≡ some row
    pub accepted : row.status ≡ approved

  -- A request is let in as an agent exactly when it presents a key whose row is not disabled and is
  -- bound to that agent, and the agent is approved.
  pub ingest_gate_iff :
      (db : Fleet) (raw agent_id : String)
      → (ingest_gate sha256 db (some raw) ≡ admitted agent_id) ↔ Admits db raw agent_id
  unfolding ingest_gate resolve_agent_key is_approved
  ingest_gate_iff db raw agent_id = (sound, complete)
    where
      sound : ingest_gate sha256 db (some raw) ≡ admitted agent_id → Admits db raw agent_id
      sound e = elim (Option-cases (find (λ k. k.key_hash == sha256 raw) db.keys)) [
        | inl no_key ↦ absurd (let f = (rw (no_key, ingest_gate) at e) in ground arith)
        | inr (key, found) ↦ elim (Option-cases (agent_by db.agents agent_id)) [
          | inl no_agent ↦ absurd (let f = (rw (found, ingest_gate) at e) in ground arith)
          | inr (row, registered) ↦
              let f = (rw (found, ingest_gate) at e) in
              record {
                key = key;
                presented = ground arith;
                found = found;
                enabled = ground arith;
                bound = ground arith;
                named = ground arith;
                row = row;
                registered = registered;
                accepted = ground arith;
              }
        ]
      ]

      complete : Admits db raw agent_id → ingest_gate sha256 db (some raw) ≡ admitted agent_id
      complete a =
          let presented = a.presented in
          let enabled = a.enabled in
          let bound = a.bound in
          let named = a.named in
          let registered = a.registered in
          let accepted = a.accepted in rw (a.found, ingest_gate) (ground arith)

  gate_agent-revoke_agent :
      (db : Fleet) (id : String) (o : Option String)
      → gate_agent sha256 (revoke_agent db id) o ≡ shut id (gate_agent sha256 db o)
  gate_agent-revoke_agent db id none = refl
  gate_agent-revoke_agent db id (some agent_id) =
      ground (arith, is_approved-revoke_agent db id agent_id)

  -- Once an agent is revoked, no request is let in as that agent; what is answered to any other request
  -- is what it was.
  pub ingest_gate-revoke_agent :
      (db : Fleet) (id : String) (presented : Option String)
      → ingest_gate sha256 (revoke_agent db id) presented
        ≡ shut id (ingest_gate sha256 db presented)
  unfolding ingest_gate resolve_agent_key revoke_agent
  ingest_gate-revoke_agent db id none = refl
  ingest_gate-revoke_agent db id (some raw) = elim (Bool-cases (raw == "")) [
    | inl empty' ↦ rw empty' refl
    | inr filled ↦
        rw filled (key (enabled_key sha256 (find (λ k. k.key_hash == sha256 raw) db.keys)))
  ]
    where
      key :
          (o : Option AgentKeyRow)
          → gate_key sha256 (revoke_agent db id) o ≡ shut id (gate_key sha256 db o)
      key none = refl
      key (some k) = gate_agent-revoke_agent db id k.agent_id
