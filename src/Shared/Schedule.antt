-- ===== src/Shared/Schedule.antt =====
-- The schedule of a monitor, packages/shared/src/monitor.ts. A field of the configuration is given by
-- the floor of the number that it reads as, or by `none` when it is absent or not finite; the bounds
-- are whole, so the floor passes the same tests.
use argus_monitor.Prelude.{ℕ, ◌≤◌, arith, String, Option, none, some, ◌==◌, min, if◌then◌else◌}
use argus_monitor.Prelude.Int.{ℤ, pos, int_leb, pos_part}

pub record MonitorSchedule : Type 0 where
  pub interval_sec : ℕ
  pub retries : ℕ
  pub retry_interval_sec : ℕ
  pub count : ℕ

pub record ScheduleConfig : Type 0 where
  pub interval : Option ℤ
  pub retries : Option ℤ
  pub retry_interval : Option ℤ
  pub count : Option ℤ

-- DEFAULT_SCHEDULE and FALLBACK_SCHEDULE: every type but ping has the fallback's values.
abbrev pub default_schedule : String → MonitorSchedule
default_schedule kind =
    if kind == "ping"
    then record { interval_sec = 10; retries = 3; retry_interval_sec = 20; count = 3 }
    else record { interval_sec = 30; retries = 0; retry_interval_sec = 10; count = 1 }

unfoldable pub pos_int : Option ℤ → ℕ → ℕ → ℕ → ℕ
pos_int none def low high = def
pos_int (some n) def low high = if int_leb (pos low) n then min (pos_part n) high else def

unfoldable pub monitor_schedule : String → ScheduleConfig → MonitorSchedule
unfolding pos_int
monitor_schedule kind c =
    let d = default_schedule kind in
    record {
      interval_sec = pos_int c.interval d.interval_sec 5 86400;
      retries = pos_int c.retries d.retries 0 10;
      retry_interval_sec = pos_int c.retry_interval d.retry_interval_sec 1 3600;
      count = pos_int c.count d.count 1 10;
    }

-- Between the bounds.
abbrev Between : ℕ → ℕ → ℕ → Type 0
Between low n high = (low ≤ n) × (n ≤ high)

-- Every field is within its bounds.
abbrev pub IsSane : MonitorSchedule → Type 0
IsSane s =
    Between 5 s.interval_sec 86400
    × Between 0 s.retries 10
    × Between 1 s.retry_interval_sec 3600
    × Between 1 s.count 10

pos_int-Between :
    (v : Option ℤ) (def low high : ℕ)
    → low ≤ def
    → def ≤ high
    → low ≤ high
    → Between low (pos_int v def low high) high
unfolding pos_int
pos_int-Between none def low high a b c = (a, b)
pos_int-Between (some n) def low high a b c = ground arith

-- Whatever the configuration holds, the schedule is within the bounds: no probe is repeated more
-- often than every five seconds, nor retried more than ten times.
pub monitor_schedule-IsSane :
    (kind : String) (c : ScheduleConfig) → IsSane (monitor_schedule kind c)
unfolding monitor_schedule
monitor_schedule-IsSane kind c = (
  pos_int-Between c.interval _ 5 86400 (ground arith) (ground arith) (ground arith),
  pos_int-Between c.retries _ 0 10 (ground arith) (ground arith) (ground arith),
  pos_int-Between c.retry_interval _ 1 3600 (ground arith) (ground arith) (ground arith),
  pos_int-Between c.count _ 1 10 (ground arith) (ground arith) (ground arith),
)
