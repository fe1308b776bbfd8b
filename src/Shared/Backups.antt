-- ===== src/Shared/Backups.antt =====
-- The copies of backups that are deleted, packages/shared/src/backup.ts. `createdAt` is an instant in
-- milliseconds since the epoch: texts of instants in UTC are in the order of the instants. A key of a
-- bucket is the number that its digits make, and the set of names to keep is a list.
pub mod Order
pub mod Tiers
pub mod Settled
use argus_monitor.Prelude.{
  ℕ, zero, suc, ◌+◌, ◌-◌, ◌*◌, ◌/◌, ◌%◌, String, List, [], ◌∷◌, ◌++◌, map, Bool, true, false, not,
  any, filter, includes, leb, ltb, nat_eq, sort_by, if◌then◌else◌,
}
use argus_monitor.Prelude.Int.{ℤ, pos_part}

pub data BackupScope : Type 0 where
  scope_all scope_config scope_data : BackupScope

pub record BackupMeta : Type 0 where
  pub name : String
  pub size : ℕ
  pub created_at : ℕ
  pub scope : BackupScope

pub record BackupRetention : Type 0 where
  pub keep_all : ℤ
  pub keep_config : ℤ
  pub keep_data : ℤ
  pub daily : ℤ
  pub weekly : ℤ
  pub monthly : ℤ

-- What `Date` makes of a number of days since the epoch.
pub record CalendarDate : Type 0 where
  pub year : ℕ
  pub month : ℕ
  pub day : ℕ

-- The calendar repeats itself every 146097 days; a year is counted from March.
unfoldable pub date_of : ℕ → CalendarDate
date_of days =
    let z = days + 719468 in
    let era = z / 146097 in
    let doe = z % 146097 in
    let yoe = (doe + doe / 36524 - doe / 1460 - doe / 146096) / 365 in
    let doy = doe + yoe / 100 - 365 * yoe - yoe / 4 in
    let mp = (5 * doy + 2) / 153 in
    let late = leb 10 mp in
    record {
      year = yoe + era * 400 + (if late then 1 else 0);
      month = if late then mp - 9 else mp + 3;
      day = doy - (153 * mp + 2) / 5 + 1;
    }

-- The days before the fourth of January of a year.
abbrev pub fourth_of_january : ℕ → ℕ
fourth_of_january year =
    let y = year - 1 in
    let yoe = y % 400 in y / 400 * 146097 + (yoe * 365 + yoe / 4 + 309) - yoe / 100 - 719468

abbrev pub day_of : ℕ → ℕ
day_of instant = instant / 86400000

abbrev pub day_key : ℕ → ℕ
day_key instant = let d = date_of (day_of instant) in d.year * 10000 + d.month * 100 + d.day

-- The Thursday of the week, which begins on a Monday; the first day of the epoch is a Thursday.
abbrev pub thursday_of : ℕ → ℕ
thursday_of days = days + 3 - (days + 3) % 7

-- `Math.round` of the weeks since the fourth of January, which may be three days later.
abbrev pub week_key : ℕ → ℕ
week_key instant =
    let thursday = thursday_of (day_of instant) in
    let d = date_of thursday in
    d.year * 100 + (1 + (2 * thursday + 7 - 2 * fourth_of_january d.year) / 14)

abbrev pub month_key : ℕ → ℕ
month_key instant = let d = date_of (day_of instant) in d.year * 100 + d.month

abbrev pub take {ℓ} : {A : Type ℓ} → ℕ → List A → List A
take zero xs = []
take (suc n) [] = []
take (suc n) (x ∷ xs) = x ∷ take n xs

-- The map from a bucket to its newest backup, in the order of insertion.
unfoldable pub newest_from : (ℕ → ℕ) → List (ℕ × String) → List BackupMeta → List (ℕ × String)
newest_from key_of newest [] = newest
newest_from key_of newest (b ∷ sorted) =
    let k = key_of b.created_at in
    newest_from key_of
      (if any (λ (p : ℕ × String). nat_eq p.0 k) newest then newest else newest ++ (k, b.name) ∷ [])
      sorted

-- A count that is not positive protects nothing.
unfoldable pub protect_buckets : List BackupMeta → ℤ → (ℕ → ℕ) → List String → List String
unfolding newest_from
protect_buckets sorted count key_of keep =
    keep ++ map (λ (p : ℕ × String). p.1) (take (pos_part count) (newest_from key_of [] sorted))

abbrev pub newest_first : BackupMeta → BackupMeta → Bool
newest_first a b = leb b.created_at a.created_at

abbrev pub scope_eq : BackupScope → BackupScope → Bool
scope_eq scope_all scope_all = true
scope_eq scope_config scope_config = true
scope_eq scope_data scope_data = true
scope_eq _ _ = false

abbrev pub keep_latest : BackupRetention → BackupScope → ℤ
keep_latest policy scope_all = policy.keep_all
keep_latest policy scope_config = policy.keep_config
keep_latest policy scope_data = policy.keep_data

-- `backups.filter(…).sort(…)`: of one scope, the newest first.
unfoldable pub sorted_scope : List BackupMeta → BackupScope → List BackupMeta
sorted_scope backups scope = sort_by newest_first (filter (λ b. scope_eq b.scope scope) backups)

-- The body of the loop over the scopes.
unfoldable pub keep_scope :
    List BackupMeta → BackupRetention → List String → BackupScope → List String
unfolding protect_buckets date_of
keep_scope sorted policy keep scope =
    let latest =
      map (λ (b : BackupMeta). b.name) (take (pos_part (keep_latest policy scope)) sorted) in
    let days = protect_buckets sorted policy.daily day_key (keep ++ latest) in
    let weeks = protect_buckets sorted policy.weekly week_key days in
    protect_buckets sorted policy.monthly month_key weeks

abbrev pub scopes : List BackupScope
scopes = scope_all ∷ scope_config ∷ scope_data ∷ []

unfoldable pub keep_each :
    List BackupMeta → BackupRetention → List String → List BackupScope → List String
unfolding keep_scope sorted_scope
keep_each backups policy keep [] = keep
keep_each backups policy keep (scope ∷ rest) =
    keep_each backups policy (keep_scope (sorted_scope backups scope) policy keep scope) rest

unfoldable pub backups_to_prune : List BackupMeta → BackupRetention → List String
unfolding keep_each
backups_to_prune backups policy =
    let keep = keep_each backups policy [] scopes in
    map (λ (b : BackupMeta). b.name) (filter (λ b. not (includes keep b.name)) backups)
