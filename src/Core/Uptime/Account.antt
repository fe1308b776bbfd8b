-- ===== src/Core/Uptime/Account.antt =====
-- What a bucket holds after a run of intervals, and how near the percentage is.
use native.Mathlib.Nat.{div-add-mod, mod-lt}
use argus_monitor.Prelude.{ℕ, ◌+◌, ◌*◌, ◌≤◌, ◌<◌, ◌≡◌, arith, List, [], ◌∷◌, if◌then◌else◌}
use argus_monitor.Prelude.Int.{ℤ, pos_part}
use argus_monitor.Shared.{HealthStatus, up, status_eq}
use argus_monitor.Core.Uptime.{UptimeBucket, empty_bucket, accumulate, hundredths, uptime_pct}

-- The intervals between successive events: the status that was held, and for how long.
abbrev pub Interval : Type 0
Interval = HealthStatus × ℤ

abbrev pub run : UptimeBucket → List Interval → UptimeBucket
run b [] = b
run b ((status, delta) ∷ rest) = run (accumulate b status delta) rest

-- The seconds that a run of intervals covers, and those of them that were spent up. An interval of
-- negative length counts for nothing.
abbrev pub covered : List Interval → ℕ
covered [] = 0
covered ((status, delta) ∷ rest) = pos_part delta + covered rest

abbrev pub covered_up : List Interval → ℕ
covered_up [] = 0
covered_up ((status, delta) ∷ rest) =
    (if status_eq status up then pos_part delta else 0) + covered_up rest

covered_up-le : (xs : List Interval) → covered_up xs ≤ covered xs
covered_up-le [] = omega arith
covered_up-le ((status, delta) ∷ rest) = ground (arith, covered_up-le rest)

-- Accumulating a run of intervals adds to the bucket exactly the seconds that were covered and the
-- seconds that were spent up.
pub run_lem :
    (b : UptimeBucket) (xs : List Interval)
    → ((run b xs).total_sec ≡ b.total_sec + covered xs)
      × ((run b xs).up_sec ≡ b.up_sec + covered_up xs)
unfolding accumulate
run_lem b [] = (omega arith, omega arith)
run_lem b ((status, delta) ∷ rest) =
    let (t, u) = run_lem (accumulate b status delta) rest in (omega (arith, t), ground (arith, u))

hundredths-near :
    (u t : ℕ)
    → 0 < t
    → (2 * t * hundredths u t ≤ 20000 * u + t) × (20000 * u < 2 * t * hundredths u t + t)
unfolding hundredths
hundredths-near u t h = omega (
  arith,
  div-add-mod (2 * (u * 10000) + t) (2 * t),
  mod-lt (2 * (u * 10000) + t) {m = 2 * t} (omega arith),
)

total_of_run : (xs : List Interval) → (run empty_bucket xs).total_sec ≡ covered xs
total_of_run xs = omega (arith, (run_lem empty_bucket xs).0)

up_of_run : (xs : List Interval) → (run empty_bucket xs).up_sec ≡ covered_up xs
up_of_run xs = omega (arith, (run_lem empty_bucket xs).1)

share_bounded : (p t u : ℕ) → 0 < t → u ≤ t → 2 * t * p ≤ 20000 * u + t → p ≤ 10000
share_bounded p t u pos small h = grind arith

pct_of_hundredths :
    (b : UptimeBucket) → 0 < b.total_sec → uptime_pct b ≡ hundredths b.up_sec b.total_sec
unfolding uptime_pct
pct_of_hundredths b h = ground arith

-- From an empty bucket, after any run of intervals that covers some time, the percentage is at most
-- 100 and differs from the share of the time that was spent up by at most half a hundredth.
pub uptime_pct-near :
    (xs : List Interval)
    → 0 < covered xs
    → (uptime_pct (run empty_bucket xs) ≤ 10000)
      × (2 * covered xs * uptime_pct (run empty_bucket xs) ≤ 20000 * covered_up xs + covered xs)
      × (20000 * covered_up xs < 2 * covered xs * uptime_pct (run empty_bucket xs) + covered xs)
uptime_pct-near xs h =
    let (t, u) = run_lem empty_bucket xs in
    let (above, below) = hundredths-near (covered_up xs) (covered xs) h in
    rw (pct_of_hundredths (run empty_bucket xs) (omega (arith, t)), total_of_run xs, up_of_run xs)
      (share_bounded _ (covered xs) (covered_up xs) h (covered_up-le xs) above, above, below)
