-- ===== src/Shared.antt =====
-- Contracts that every package shares, packages/shared/src.
pub mod Schedule
pub mod Backups
mod Tests
use argus_monitor.Prelude.{◌≡◌, ◌↔◌, Bool, true, false, arith}

-- The five values of common.ts.
pub data HealthStatus : Type 0 where
  up degraded hang down unknown : HealthStatus

abbrev pub status_eq : HealthStatus → HealthStatus → Bool
status_eq up up = true
status_eq degraded degraded = true
status_eq hang hang = true
status_eq down down = true
status_eq unknown unknown = true
status_eq _ _ = false

pub status_eq_iff : (a b : HealthStatus) → (status_eq a b ≡ true) ↔ (a ≡ b)
status_eq_iff a b = ground arith
