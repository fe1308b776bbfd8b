-- ===== src/Backend/Monitors/Runners.antt =====
-- Who runs a monitor.
use argus_monitor.Prelude.{
  ◌≡◌, ◌↔◌, ◌⊎◌, inl, inr, refl, sym, ap, subst, arith, Bool, true, false, ◌&&◌, ◌||◌, not, eq_refl,
  filter, In, In-filter, filter_In, In-append, In-append_left, In-append_right, In-map, map_In,
}
use argus_monitor.Backend.Monitors.{
  MonitorType, service, process, host, database, storage, ping, snmp, http, tcp, dns, MonitorRow,
  Monitors, AgentMonitorConfig, wire, is_ping, is_storage, is_snmp, is_check, is_delivered,
  list_agent_monitor_config, list_enabled_ping_monitors, list_enabled_snmp_monitors,
  list_enabled_checks, list_enabled_server_storage_monitors, refresh,
}

-- The programs that run monitors: an agent, and the three schedulers of the server.
pub data Runner : Type 0 where
  agent prober storage_scheduler snmp_scheduler : Runner

-- That a runner is given a monitor.
abbrev pub Runs : Monitors → MonitorRow → Runner → Type 0
Runs db m agent = In (wire m) (list_agent_monitor_config db m.agent_id)
Runs db m prober = In m (refresh db)
Runs db m storage_scheduler = In m (list_enabled_server_storage_monitors db)
Runs db m snmp_scheduler = In m (list_enabled_snmp_monitors db)

-- Where a kind of monitor belongs, by whether it is marked for the server.
abbrev pub runner_of : MonitorType → Bool → Runner
runner_of ping true = prober
runner_of storage true = storage_scheduler
runner_of snmp marked = snmp_scheduler
runner_of http marked = prober
runner_of tcp marked = prober
runner_of dns marked = prober
runner_of _ marked = agent

module _ (db : Monitors) (m : MonitorRow) (stored : In m db) (on : m.enabled ≡ true) where
  to_agent : is_delivered m.agent_id m ≡ true → Runs db m agent
  unfolding list_agent_monitor_config
  to_agent d = In-map wire (In-filter (is_delivered m.agent_id) stored d)

  to_prober_ping : is_ping m.kind ≡ true → m.config.is_server ≡ true → Runs db m prober
  unfolding refresh
  to_prober_ping k s = In-append_left (list_enabled_checks db) (
      In-filter (λ (x : MonitorRow). x.config.is_server)
        (In-filter (λ (x : MonitorRow). is_ping x.kind && x.enabled) stored (ground arith)) s)

  to_prober_check : is_check m.kind ≡ true → Runs db m prober
  unfolding refresh
  to_prober_check k =
      In-append_right
        (filter (λ (x : MonitorRow). x.config.is_server) (list_enabled_ping_monitors db))
        (In-filter (λ (x : MonitorRow). is_check x.kind && x.enabled) stored (ground arith))

  to_storage : is_storage m.kind ≡ true → m.config.is_server ≡ true → Runs db m storage_scheduler
  unfolding list_enabled_server_storage_monitors
  to_storage k s =
      In-filter (λ (x : MonitorRow). x.config.is_server)
        (In-filter (λ (x : MonitorRow). is_storage x.kind && x.enabled) stored (ground arith)) s

  to_snmp : is_snmp m.kind ≡ true → Runs db m snmp_scheduler
  unfolding list_enabled_snmp_monitors
  to_snmp k = In-filter (λ (x : MonitorRow). is_snmp x.kind && x.enabled) stored (ground arith)

  -- The runner that a monitor belongs to is given it, and an agent is given the checks as well.
  given :
      (r : Runner)
      → (r ≡ runner_of m.kind m.config.is_server) ⊎ ((r ≡ agent) × (is_check m.kind ≡ true))
      → Runs db m r
  given r (inl e) = subst (Runs db m) (sym e) (own m.kind m.config.is_server refl refl)
    where
      own :
          (k : MonitorType) (b : Bool)
          → m.kind ≡ k
          → m.config.is_server ≡ b
          → Runs db m (runner_of k b)
      own ping true ek eb = to_prober_ping (ground arith) eb
      own storage true ek eb = to_storage (ground arith) eb
      own snmp b ek eb = to_snmp (ground arith)
      own http b ek eb = to_prober_check (ground arith)
      own tcp b ek eb = to_prober_check (ground arith)
      own dns b ek eb = to_prober_check (ground arith)
      own ping false ek eb = to_agent (ground (arith, eq_refl m.agent_id))
      own storage false ek eb = to_agent (ground (arith, eq_refl m.agent_id))
      own service b ek eb = to_agent (ground (arith, eq_refl m.agent_id))
      own process b ek eb = to_agent (ground (arith, eq_refl m.agent_id))
      own host b ek eb = to_agent (ground (arith, eq_refl m.agent_id))
      own database b ek eb = to_agent (ground (arith, eq_refl m.agent_id))
  given r (inr (e, c)) = subst (Runs db m) (sym e) (to_agent (check c))
    where
      check : is_check m.kind ≡ true → is_delivered m.agent_id m ≡ true
      check c = ground (arith, eq_refl m.agent_id)

-- What each list says of its rows.
prober_kind :
    (k : MonitorType) (b : Bool) → (is_ping k && b || is_check k) ≡ true → prober ≡ runner_of k b
prober_kind k b h = ground arith

storage_kind :
    (k : MonitorType) (b : Bool) → (is_storage k && b) ≡ true → storage_scheduler ≡ runner_of k b
storage_kind k b h = ground arith

snmp_kind : (k : MonitorType) (b : Bool) → is_snmp k ≡ true → snmp_scheduler ≡ runner_of k b
snmp_kind k b h = ground arith

agent_kind :
    (k : MonitorType) (b : Bool)
    → (not (is_snmp k) && not ((is_ping k || is_storage k) && b)) ≡ true
    → (agent ≡ runner_of k b) ⊎ ((agent ≡ agent) × (is_check k ≡ true))
agent_kind k b h = ground arith

belongs :
    (db : Monitors) (m : MonitorRow) (r : Runner)
    → Runs db m r
    → (r ≡ runner_of m.kind m.config.is_server) ⊎ ((r ≡ agent) × (is_check m.kind ≡ true))
unfolding refresh list_enabled_server_storage_monitors list_enabled_snmp_monitors
    list_agent_monitor_config
belongs db m agent h =
    let (w, i, e) = map_In wire (filter (is_delivered m.agent_id) db) h in
    let (j, d) = filter_In (is_delivered m.agent_id) db i in
    let kind : m.kind ≡ w.kind = ap (λ (c : AgentMonitorConfig). c.kind) e in
    let config : m.config ≡ w.config = ap (λ (c : AgentMonitorConfig). c.config) e in
    agent_kind m.kind m.config.is_server (rw (kind, config) (ground arith))
belongs db m prober h =
    elim (In-append
      (filter (λ (x : MonitorRow). x.config.is_server) (list_enabled_ping_monitors db)) h) [
        | inl i ↦
            let (j, s) =
              filter_In (λ (x : MonitorRow). x.config.is_server) (list_enabled_ping_monitors db)
                i in
            let (k, p) = filter_In (λ (x : MonitorRow). is_ping x.kind && x.enabled) db j in
            inl (prober_kind m.kind m.config.is_server (ground arith))
        | inr i ↦
            let (k, c) = filter_In (λ (x : MonitorRow). is_check x.kind && x.enabled) db i in
            inl (prober_kind m.kind m.config.is_server (ground arith))
      ]
belongs db m storage_scheduler h =
    let (i, s) =
      filter_In (λ (x : MonitorRow). x.config.is_server)
        (filter (λ (x : MonitorRow). is_storage x.kind && x.enabled) db) h in
    let (j, p) = filter_In (λ (x : MonitorRow). is_storage x.kind && x.enabled) db i in
    inl (storage_kind m.kind m.config.is_server (ground arith))
belongs db m snmp_scheduler h =
    let (j, p) = filter_In (λ (x : MonitorRow). is_snmp x.kind && x.enabled) db h in
    inl (snmp_kind m.kind m.config.is_server (ground arith))

-- A monitor that is stored and enabled is given to the runner that its kind and its mark for the
-- server call for, and to no other; but an HTTP, TCP or DNS check, which the server runs, is delivered
-- to its agent as well.
pub runs_iff :
    (db : Monitors) (m : MonitorRow) (r : Runner)
    → In m db
    → m.enabled ≡ true
    → Runs db m r
      ↔ ((r ≡ runner_of m.kind m.config.is_server) ⊎ ((r ≡ agent) × (is_check m.kind ≡ true)))
runs_iff db m r stored on = (belongs db m r, given db m stored on r)
