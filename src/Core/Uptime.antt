-- ===== src/Core/Uptime.antt =====
-- The uptime accumulator, packages/core/src/uptime.ts. Durations are whole seconds; a percentage is
-- counted in hundredths of a percent, which is what `Math.round(x * 100) / 100` keeps, and is rounded
-- from the exact quotient.
pub mod Account
use argus_monitor.Prelude.{ℕ, zero, ◌+◌, ◌*◌, ◌/◌, Bool, nat_eq, if◌then◌else◌}
use argus_monitor.Prelude.Int.{ℤ, pos_part}
use argus_monitor.Shared.{HealthStatus, up, status_eq}

pub record UptimeBucket : Type 0 where
  pub up_sec : ℕ
  pub total_sec : ℕ

abbrev pub empty_bucket : UptimeBucket
empty_bucket = record { up_sec = 0; total_sec = 0 }

unfoldable pub accumulate : UptimeBucket → HealthStatus → ℤ → UptimeBucket
accumulate b status delta_sec =
    let delta : ℕ = pos_part delta_sec in
    record {
      up_sec = b.up_sec + (if status_eq status up then delta else 0);
      total_sec = b.total_sec + delta;
    }

-- `Math.round(up / total * 100 * 100)`: the floor of the quotient plus one half.
unfoldable pub hundredths : ℕ → ℕ → ℕ
hundredths up_sec total_sec = (2 * (up_sec * 10000) + total_sec) / (2 * total_sec)

unfoldable pub uptime_pct : UptimeBucket → ℕ
uptime_pct b = if nat_eq b.total_sec 0 then 0 else hundredths b.up_sec b.total_sec
