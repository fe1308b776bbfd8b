-- ===== src/Backend/PublicStatus/History.antt =====
-- The daily history of an item of the public page, apps/backend/src/services/public-status.ts:
-- uptimeHistoryFor.
use argus_monitor.Prelude.{
  ℕ, zero, suc, ◌+◌, ◌*◌, ◌/◌, ◌≤◌, ◌≡◌, refl, ap, ◌∙◌, arith, inl, inr, String, Option, List, [],
  ◌∷◌, map, Bool, true, false, ◌&&◌, filter, leb, nat_eq, Bool-cases, if◌then◌else◌,
}
use argus_monitor.Core.Uptime.{UptimeBucket, empty_bucket}
use argus_monitor.Backend.Pipeline.{UptimeBucketRow}
use argus_monitor.Backend.PublicStatus.{
  Site, is_bucket_for, add_bucket, sum_from, day_ms, add_day, by_day, total_of, day_pct,
  history_from, first_day, uptime_history_for,
}

abbrev pub is_on : ℕ → UptimeBucketRow → Bool
is_on day r = nat_eq (r.bucket_start / day_ms) day

total_of-add_day :
    (r : UptimeBucketRow) (days : List (ℕ × UptimeBucket)) (day : ℕ)
    → total_of (add_day r days) day
      ≡ (if is_on day r then add_bucket (total_of days day) r else total_of days day)
unfolding add_day
total_of-add_day r [] day = elim (Bool-cases (is_on day r)) [
  | inl h ↦ rw h refl
  | inr h ↦ rw h refl
]
total_of-add_day r ((key, acc) ∷ days) day =
    let ih = total_of-add_day r days day in
    elim (Bool-cases (nat_eq key (r.bucket_start / day_ms))) [
      | inl same ↦ elim (Bool-cases (is_on day r)) [
        | inl on ↦ let k : nat_eq key day ≡ true = ground arith in rw (same, on, total_of, k) refl
        | inr off ↦
            let k : nat_eq key day ≡ false = ground arith in rw (same, off, total_of, k) refl
      ]
      | inr other ↦ elim (Bool-cases (nat_eq key day)) [
        | inl k ↦ let off : is_on day r ≡ false = ground arith in rw (other, off, total_of, k) refl
        | inr k ↦ rw (other, total_of, k) ih
      ]
    ]

by_day-total_of :
    (rows : List UptimeBucketRow) (days : List (ℕ × UptimeBucket)) (day : ℕ)
    → total_of (by_day rows days) day ≡ sum_from (total_of days day) (filter (is_on day) rows)
unfolding by_day sum_from
by_day-total_of [] days day = refl
by_day-total_of (r ∷ rows) days day =
    let ih = by_day-total_of rows (add_day r days) day in
    let e = total_of-add_day r days day in
    elim (Bool-cases (is_on day r)) [
      | inl h ↦ ih ∙ (rw (e, h, sum_from) refl)
      | inr h ↦ ih ∙ (rw (e, h) refl)
    ]

-- The rows of an item on a day.
abbrev pub rows_on : Site → String → Option String → ℕ → List UptimeBucketRow
rows_on db source_id entity day =
    filter (λ r. is_bucket_for source_id entity r && is_on day r) db.buckets

abbrev pub days_from : ℕ → ℕ → List ℕ
days_from zero day = []
days_from (suc n) day = day ∷ days_from n (day + 1)

is_on-recent :
    (first day : ℕ) (r : UptimeBucketRow)
    → first ≤ day
    → is_on day r ≡ true
    → leb (first * day_ms) r.bucket_start ≡ true
is_on-recent first day r late h = ground arith

filter-window :
    (p : UptimeBucketRow → Bool) (first day : ℕ) (rows : List UptimeBucketRow)
    → first ≤ day
    → filter (is_on day) (filter (λ r. p r && leb (first * day_ms) r.bucket_start) rows)
      ≡ filter (λ r. p r && is_on day r) rows
filter-window p first day [] late = refl
filter-window p first day (r ∷ rows) late =
    let ih = filter-window p first day rows late in
    elim (Bool-cases (p r)) [
      | inr out ↦ rw (out) ih
      | inl taken ↦ elim (Bool-cases (is_on day r)) [
        | inl on ↦ let recent = is_on-recent first day r late on in rw (taken, recent, on, ih) refl
        | inr off ↦ elim (Bool-cases (leb (first * day_ms) r.bucket_start)) [
          | inl recent ↦ rw (taken, recent, off) ih
          | inr old ↦ rw (taken, old, off) ih
        ]
      ]
    ]

history_from-days :
    (db : Site) (source_id : String) (entity : Option String) (first days day : ℕ)
    → first ≤ day
    → history_from
        (by_day
          (filter
            (λ r. is_bucket_for source_id entity r && leb (first * day_ms) r.bucket_start)
            db.buckets)
          [])
        days
        day
      ≡ map
          (λ day. day_pct (sum_from empty_bucket (rows_on db source_id entity day)))
          (days_from days day)
unfolding history_from
history_from-days db source_id entity first zero day late = refl
history_from-days db source_id entity first (suc days) day late =
    let recent =
      filter (λ r. is_bucket_for source_id entity r && leb (first * day_ms) r.bucket_start)
        db.buckets in
    let total =
      by_day-total_of recent [] day
      ∙ ap (sum_from empty_bucket)
          (filter-window (is_bucket_for source_id entity) first day db.buckets late) in
    let ih = history_from-days db source_id entity first days (day + 1) (omega arith) in
    rw (total, ih) refl

-- The history of an item has an entry for each day of the window, from the oldest: the share, in whole
-- percents, that the time up has of the time covered, over the buckets of the item on that day; or
-- none, if they cover no time.
pub uptime_history_for-days :
    (db : Site) (source_id : String) (entity : Option String) (days now : ℕ)
    → uptime_history_for db source_id entity days now
      ≡ map
          (λ day. day_pct (sum_from empty_bucket (rows_on db source_id entity day)))
          (days_from days (first_day days now))
unfolding uptime_history_for
uptime_history_for-days db source_id entity days now =
    history_from-days db source_id entity (first_day days now) days (first_day days now)
      (omega arith)
