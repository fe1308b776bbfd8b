-- ===== src/Backend/Monitors/Defaults.antt =====
-- The default reachability ping of an agent is made once.
use argus_monitor.Prelude.{
  ℕ, ◌≡◌, refl, arith, String, Option, none, some, [], ◌∷◌, true, false, ◌==◌, eq_refl, Bool-cases,
  inl, inr,
}
use argus_monitor.Backend.Monitors.{
  Monitors, has_default_ping, default_ping, create_monitor, ensure_default_ping_monitor,
}

has_default-create :
    (db : Monitors) (agent_id address id : String) (now : ℕ)
    → has_default_ping (create_monitor db (default_ping agent_id address) id now) agent_id ≡ true
unfolding create_monitor
has_default-create [] agent_id address id now = rw (eq_refl agent_id) refl
has_default-create (m ∷ db) agent_id address id now =
    ground (arith, has_default-create db agent_id address id now)

-- Once an address is known, the agent has a default ping, and to ensure it again, with any address,
-- changes nothing.
pub ensure-ensure :
    (db : Monitors) (agent_id address : String) (later : Option String) (id id' : String)
    (now now' : ℕ)
    → (address == "") ≡ false
    → let once = ensure_default_ping_monitor db agent_id (some address) id now in
      (has_default_ping once agent_id ≡ true)
      × (ensure_default_ping_monitor once agent_id later id' now' ≡ once)
unfolding ensure_default_ping_monitor
ensure-ensure db agent_id address later id id' now now' h = (present, again later)
  where
    once : Monitors
    once = ensure_default_ping_monitor db agent_id (some address) id now

    present : has_default_ping once agent_id ≡ true
    present = elim (Bool-cases (has_default_ping db agent_id)) [
      | inl old ↦ rw (h, old) old
      | inr new ↦ rw (h, new) (has_default-create db agent_id address id now)
    ]

    again : (o : Option String) → ensure_default_ping_monitor once agent_id o id' now' ≡ once
    again none = refl
    again (some other) = elim (Bool-cases (other == "")) [
      | inl empty' ↦ rw empty' refl
      | inr filled ↦ rw (filled, present) refl
    ]
