-- ===== src/Backend/Agents/Registration.antt =====
-- An agent that registers again with its key stays the agent that it was.
use argus_monitor.Prelude.{
  ℕ, ◌≡◌, refl, ap, ◌∙◌, arith, String, none, some, List, [], ◌∷◌, ◌++◌, map, Bool, true, false,
  ◌==◌, eq_refl, find, any, update_where, adjust, find-update_where, find-some,
}
use argus_monitor.Backend.Agents.{
  pending, AgentRow, AgentKeyRow, Fleet, agent_by, RegisterRequest, new_agent, with_fields,
  bound_agent, register_agent, agent_debug_enabled, debug_of,
}

find-append {ℓ} :
    {A : Type ℓ} (p : A → Bool) (xs : List A) (x : A)
    → any p xs ≡ false
    → p x ≡ true
    → find p (xs ++ x ∷ []) ≡ some x
find-append p [] x none' hit = rw hit refl
find-append p (y ∷ ys) x none' hit = ground (arith, find-append p ys x)

ids-update_where :
    (id : String) (f : AgentRow → AgentRow) (agents : List AgentRow)
    → ((a : AgentRow) → (f a).id ≡ a.id)
    → map (λ (a : AgentRow). a.id) (update_where (λ a. a.id == id) f agents)
      ≡ map (λ (a : AgentRow). a.id) agents
ids-update_where id f [] same = refl
ids-update_where id f (a ∷ agents) same = ground (arith, same a, ids-update_where id f agents same)

-- A key that is bound to an agent that is there.
module _ (db : Fleet) (key : AgentKeyRow) (req : RegisterRequest) (id : String) (now : ℕ) where
  register_bound :
      (agent_id : String) (a : AgentRow)
      → key.agent_id ≡ some agent_id
      → (agent_id == "") ≡ false
      → agent_by db.agents agent_id ≡ some a
      → let (next, answer) = register_agent db key req id now in
        (answer.agent_id ≡ a.id)
        × (answer.status ≡ a.status)
        × (map (λ (a : AgentRow). a.id) next.agents ≡ map (λ (a : AgentRow). a.id) db.agents)
  unfolding register_agent
  register_bound agent_id a bound named there' =
      rw (bound, bound_agent, named, there')
        (refl, refl, ids-update_where a.id (with_fields req now) db.agents (λ x. refl))

module _ (db : Fleet) (key : AgentKeyRow) (req : RegisterRequest) (id : String) (now : ℕ) where
  register_fresh :
      key.agent_id ≡ none
      → register_agent db key req id now ≡ (
        record db {
          agents = db.agents ++ new_agent req id now ∷ [];
          keys = update_where (λ k. k.id == key.id) (λ k. record k { agent_id = some id }) db.keys;
        },
        record { agent_id = id; status = pending },
      )
  unfolding register_agent
  register_fresh unbound = rw (unbound, bound_agent) refl

  -- An agent that registers with a key of its own for the first time is given a new row, and the key
  -- is bound to it; when it registers again with that key, at any time and with anything that it
  -- reports, it gets the same id and status, and no row is added.
  pub register-register :
      (again : RegisterRequest) (id' : String) (now' : ℕ)
      → key.agent_id ≡ none
      → find (λ k. k.id == key.id) db.keys ≡ some key
      → (id == "") ≡ false
      → any (λ a. a.id == id) db.agents ≡ false
      → let once = register_agent db key req id now in
        let bound = record key { agent_id = some id } in
        let twice = register_agent once.0 bound again id' now' in
        (find (λ k. k.id == key.id) once.0.keys ≡ some bound)
        × (twice.1.agent_id ≡ once.1.agent_id)
        × (twice.1.status ≡ once.1.status)
        × (map (λ (a : AgentRow). a.id) twice.0.agents ≡ map (λ (a : AgentRow). a.id) once.0.agents)
  register-register again id' now' unbound stored named fresh =
      rw (register_fresh unbound) (found, second.0, second.1, second.2)
    where
      once : Fleet
      once = record db {
        agents = db.agents ++ new_agent req id now ∷ [];
        keys = update_where (λ k. k.id == key.id) (λ k. record k { agent_id = some id }) db.keys;
      }

      found : find (λ k. k.id == key.id) once.keys ≡ some (record key { agent_id = some id })
      found =
          find-update_where (λ (k : AgentKeyRow). k.id == key.id) (λ k. k.id == key.id)
            (λ k. record k { agent_id = some id }) db.keys (λ k. refl)
          ∙ rw stored (rw (eq_refl key.id) refl)

      second :
          ((register_agent once (record key { agent_id = some id }) again id' now').1.agent_id ≡ id)
          × ((register_agent once (record key { agent_id = some id }) again id' now').1.status
              ≡ pending)
          × (map
                (λ (a : AgentRow). a.id)
                (register_agent once (record key { agent_id = some id }) again id' now').0.agents
              ≡ map (λ (a : AgentRow). a.id) once.agents)
      second =
          register_bound once (record key { agent_id = some id }) again id' now' id
            (new_agent req id now) refl named
            (find-append (λ (a : AgentRow). a.id == id) db.agents (new_agent req id now) fresh
              (eq_refl id))

-- A registration that reports a build time turns the debug mode of its agent off, whatever it was: the
-- metadata are replaced, and the flag was one of them.
pub register-debug_off :
    (db : Fleet) (key : AgentKeyRow) (req : RegisterRequest) (id agent_id time : String) (now : ℕ)
    (a : AgentRow)
    → key.agent_id ≡ some agent_id
    → (agent_id == "") ≡ false
    → agent_by db.agents agent_id ≡ some a
    → req.build_time ≡ some time
    → (time == "") ≡ false
    → agent_debug_enabled (register_agent db key req id now).0 agent_id ≡ false
unfolding register_agent agent_debug_enabled
register-debug_off db key req id agent_id time now a bound named there' built filled =
    let own : (a.id == agent_id) ≡ true =
      (find-some (λ (x : AgentRow). x.id == agent_id) db.agents there').1 in
    rw (bound, bound_agent, named, there')
      (ap debug_of (
          find-update_where (λ (x : AgentRow). x.id == agent_id) (λ x. x.id == a.id)
            (with_fields req now) db.agents (λ x. refl)
          ∙ ap (adjust (λ x. x.id == a.id) (with_fields req now)) there')
        ∙ (rw (eq_refl a.id) (rw (built, filled) refl)))
