-- ===== src/Backend/Retention/Purge.antt =====
-- What the removal of an agent leaves.
use argus_monitor.Prelude.{
  ◌≡◌, ◌↔◌, inl, inr, refl, arith, String, List, false, ◌&&◌, not, ◌==◌, filter, includes, is_empty,
  In, In-filter, filter_In, Bool-cases,
}
use argus_monitor.Backend.Retention.{
  process_metrics, TelemetryRow, Rows, is_by_source, is_by_monitor, purge_agent_telemetry,
}

-- The purge keeps exactly the rows of other agents and monitors, and the rows of the tables that it
-- does not name: those of process_metrics, that are stored by the agent, among them.
pub purge_agent_telemetry_iff :
    (db : Rows) (agent_id : String) (monitor_ids : List String) (r : TelemetryRow)
    → In r (purge_agent_telemetry db agent_id monitor_ids) ↔ (
        In r db
        × ((is_by_source r.table && r.key == agent_id) ≡ false)
        × ((is_by_monitor r.table && includes monitor_ids r.key) ≡ false))
unfolding purge_agent_telemetry
purge_agent_telemetry_iff db agent_id monitor_ids r = elim (Bool-cases (is_empty monitor_ids)) [
  | inl no_monitor ↦ rw no_monitor (
      (
        λ m.
            let (n, k) = filter_In (λ x. not (is_by_source x.table && x.key == agent_id)) db m in
            (n, ground arith, ground arith),
        λ h.
            In-filter (λ x. not (is_by_source x.table && x.key == agent_id)) h.0
              (let s = h.1 in ground arith),
      ))
  | inr monitors ↦ rw monitors (
      (
        λ m.
            let (n, k) =
              filter_In (λ x. not (is_by_monitor x.table && includes monitor_ids x.key))
                (filter (λ x. not (is_by_source x.table && x.key == agent_id)) db) m in
            let (i, j) = filter_In (λ x. not (is_by_source x.table && x.key == agent_id)) db n in
            (i, ground arith, ground arith),
        λ h.
            In-filter (λ x. not (is_by_monitor x.table && includes monitor_ids x.key))
              (In-filter (λ x. not (is_by_source x.table && x.key == agent_id)) h.0
                (let s = h.1 in ground arith))
              (let s = h.2 in ground arith),
      ))
]

-- No purge removes a row of process_metrics.
pub purge-process_metrics :
    (db : Rows) (agent_id : String) (monitor_ids : List String) (r : TelemetryRow)
    → In r db
    → r.table ≡ process_metrics
    → In r (purge_agent_telemetry db agent_id monitor_ids)
purge-process_metrics db agent_id monitor_ids r m e =
    (purge_agent_telemetry_iff db agent_id monitor_ids r).1 (m, rw e refl, rw e refl)
