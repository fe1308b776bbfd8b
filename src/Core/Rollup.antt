-- ===== src/Core/Rollup.antt =====
-- The overall health of a collection of units, packages/core/src/state.ts.
pub mod Meaning
use argus_monitor.Prelude.{List, [], ◌∷◌, Bool, ◌&&◌, ◌||◌, not, all, if◌then◌else◌}
use argus_monitor.Shared.{HealthStatus, up, degraded, hang, down, unknown, status_eq}

pub record MonitoredUnit : Type 0 where
  pub status : HealthStatus
  pub critical : Bool

unfoldable pub is_bad : HealthStatus → Bool
is_bad status = status_eq status down || status_eq status hang

-- The first loop, that returns DOWN, and what follows it.
unfoldable pub critical_loop : List MonitoredUnit → HealthStatus → HealthStatus
critical_loop [] after = after
critical_loop (unit ∷ units) after =
    if unit.critical && is_bad unit.status then down else critical_loop units after

-- The second loop, that returns DEGRADED, and what follows it.
unfoldable pub bad_loop : List MonitoredUnit → HealthStatus → HealthStatus
bad_loop [] after = after
bad_loop (unit ∷ units) after =
    if not unit.critical && is_bad unit.status then degraded else bad_loop units after

unfoldable pub rollup : List MonitoredUnit → HealthStatus
rollup [] = unknown
rollup (unit ∷ rest) = critical_loop (unit ∷ rest) (
    bad_loop (unit ∷ rest) (if all (λ u. status_eq u.status up) (unit ∷ rest) then up else unknown))
