-- ===== src/Backend/Retention/Sweep.antt =====
-- What a sweep keeps.
use argus_monitor.Prelude.{
  ℕ, ◌+◌, ◌-◌, ◌*◌, ◌≤◌, ◌≡◌, ◌↔◌, ◌⊎◌, inl, inr, refl, sym, ap, ◌∙◌, subst, arith, String, Option,
  none, some, List, [], ◌∷◌, map, Bool, true, false, ◌&&◌, ◌||◌, not, ◌==◌, eq_iff, eq_refl, all,
  includes, In, In-filter, filter_In, ltb, nat_eq, Bool-cases, Option-cases,
}
use argus_monitor.Backend.Retention.{
  Table, status_events, client_events, host_metrics, ping_samples, db_metrics, storage_metrics,
  snmp_metrics, folder_metrics, process_metrics, logs, audit_log, notifications, uptime_buckets,
  unit_states, TelemetryRow, Rows, RetentionRow, retention_data_types, type_of, is_target, stored,
  row_or, list_retention, is_older, prune_older_than, sweep_each, run_retention_sweep,
}

-- What a policy of a type does to a row.
abbrev keeps : String → Option ℕ → ℕ → TelemetryRow → Bool
keeps data_type none now r = true
keeps data_type (some days) now r =
    nat_eq days 0 || not (is_target data_type (type_of r.table) && ltb r.ts (now - days * 86400000))

prune_iff :
    (db : Rows) (data_type : String) (days : Option ℕ) (now : ℕ) (r : TelemetryRow)
    → In r (prune_older_than db data_type days now)
      ↔ (In r db × (keeps data_type days now r ≡ true))
unfolding prune_older_than
prune_iff db data_type none now r = (λ m. (m, refl), λ h. h.0)
prune_iff db data_type (some days) now r = elim (Bool-cases (nat_eq days 0)) [
  | inl unlimited ↦ rw unlimited (λ m. (m, refl), λ h. h.0)
  | inr limited ↦ rw limited (
      (
        λ m.
            let (n, k) = filter_In (λ x. not (is_older data_type (now - days * 86400000) x)) db m in
            (n, ground arith),
        λ h. In-filter (λ x. not (is_older data_type (now - days * 86400000) x)) h.0 (ground arith),
      ))
]

abbrev kept_by : ℕ → TelemetryRow → RetentionRow → Bool
kept_by now r p = keeps p.data_type p.days now r

sweep_each_iff :
    (policies : List RetentionRow) (db : Rows) (now : ℕ) (r : TelemetryRow)
    → In r (sweep_each db policies now) ↔ (In r db × (all (kept_by now r) policies ≡ true))
unfolding sweep_each
sweep_each_iff [] db now r = (λ m. (m, refl), λ h. h.0)
sweep_each_iff (p ∷ policies) db now r =
    let later = sweep_each_iff policies (prune_older_than db p.data_type p.days now) now r in
    let first = prune_iff db p.data_type p.days now r in
    (
      λ m. let (n, k) = later.0 m in let (i, j) = first.0 n in (i, ground arith),
      λ h. later.1 (first.1 (h.0, ground arith), ground arith),
    )

-- The limit of a type, as the list of the policies shows it.
abbrev pub days_of : List RetentionRow → String → Option ℕ
days_of config data_type = (row_or data_type (stored config data_type)).days

stored_type :
    (config : List RetentionRow) (t : String) (r : RetentionRow)
    → stored config t ≡ some r
    → r.data_type ≡ t
stored_type [] t r e = absurd (ground arith)
stored_type (p ∷ config) t r e = ground (arith, stored_type config t r, eq_iff p.data_type t)

row_or_type : (config : List RetentionRow) (t : String) → (row_or t (stored config t)).data_type ≡ t
row_or_type config t = elim (Option-cases (stored config t)) [
  | inl unset ↦ rw unset refl
  | inr (r, set') ↦ rw set' (stored_type config t r set')
]

-- A test of a list of names that only one name can fail.
all_one :
    (f : String → Bool) (name : String) (types : List String)
    → ((t : String) → (name == t) ≡ false → f t ≡ true)
    → includes types name ≡ true
    → all f types ≡ f name
all_one f name [] others m = absurd (ground arith)
all_one f name (t ∷ types) others m = elim (Bool-cases (name == t)) [
  | inl same ↦
      let e : name ≡ t = (eq_iff name t).0 same in
      elim (Bool-cases (includes types name)) [
        | inl again ↦
            let rest = all_one f name types others again in
            let head' : f t ≡ f name = ap f (sym e) in ground arith
        | inr once ↦
            let rest = all_true f name types others once in
            let head' : f t ≡ f name = ap f (sym e) in ground arith
      ]
  | inr other ↦
      let rest = all_one f name types others (ground (arith, eq_iff t name, eq_iff name t)) in
      let head' = others t other in ground arith
]
  where
    all_true :
        (f : String → Bool) (name : String) (types : List String)
        → ((t : String) → (name == t) ≡ false → f t ≡ true)
        → includes types name ≡ false
        → all f types ≡ true
    all_true f name [] others m = refl
    all_true f name (t ∷ types) others m =
        ground (arith, others t, all_true f name types others, eq_iff t name, eq_iff name t)

abbrev is_listed : Option String → Bool
is_listed none = true
is_listed (some name) = includes retention_data_types name

type_of_listed : (t : Table) → is_listed (type_of t) ≡ true
type_of_listed status_events = refl
type_of_listed client_events = refl
type_of_listed host_metrics = refl
type_of_listed ping_samples = refl
type_of_listed db_metrics = refl
type_of_listed storage_metrics = refl
type_of_listed snmp_metrics = refl
type_of_listed folder_metrics = refl
type_of_listed process_metrics = refl
type_of_listed logs = refl
type_of_listed audit_log = refl
type_of_listed notifications = refl
type_of_listed uptime_buckets = refl
type_of_listed unit_states = refl

keeps_untargeted :
    (t : String) (days : Option ℕ) (now : ℕ) (r : TelemetryRow)
    → is_target t (type_of r.table) ≡ false
    → keeps t days now r ≡ true
keeps_untargeted t none now r e = refl
keeps_untargeted t (some days) now r e = ground arith

all_keeps :
    (config : List RetentionRow) (types : List String) (now : ℕ) (r : TelemetryRow)
    → all (kept_by now r) (map (λ t. row_or t (stored config t)) types)
      ≡ all (λ t. keeps t (days_of config t) now r) types
all_keeps config [] now r = refl
all_keeps config (t ∷ types) now r = rw (row_or_type config t, all_keeps config types now r) refl

-- A row is as young as the limit of its type asks, if there is one.
abbrev pub InLimit : Option ℕ → ℕ → ℕ → Type 0
InLimit none now ts = Unit {0}
InLimit (some days) now ts = (days ≡ 0) ⊎ (now ≤ ts + days * 86400000)

abbrev pub Within : List RetentionRow → ℕ → Option String → ℕ → Type 0
Within config now none ts = Unit {0}
Within config now (some name) ts = InLimit (days_of config name) now ts

keeps_iff :
    (name : String) (days : Option ℕ) (now : ℕ) (r : TelemetryRow)
    → type_of r.table ≡ some name
    → (keeps name days now r ≡ true) ↔ InLimit days now r.ts
keeps_iff name none now r e = (λ h. tt, λ h. refl)
keeps_iff name (some days) now r e = ground (arith, eq_refl name)

all-true_when :
    (f : String → Bool) (types : List String) → ((t : String) → f t ≡ true) → all f types ≡ true
all-true_when f [] h = refl
all-true_when f (t ∷ types) h = ground (arith, h t, all-true_when f types h)

all_keeps_iff :
    (config : List RetentionRow) (now : ℕ) (r : TelemetryRow)
    → (all (λ t. keeps t (days_of config t) now r) retention_data_types ≡ true)
      ↔ Within config now (type_of r.table) r.ts
all_keeps_iff config now r = elim (Option-cases (type_of r.table)) [
  | inl untyped ↦ rw untyped (
      (
        λ h. tt,
        λ h.
            all-true_when (λ t. keeps t (days_of config t) now r) retention_data_types
              (λ t. keeps_untargeted t (days_of config t) now r (rw untyped refl)),
      ))
  | inr (name, typed) ↦
      let one =
        all_one (λ t. keeps t (days_of config t) now r) name retention_data_types
          (λ t other. keeps_untargeted t (days_of config t) now r (rw typed other))
          (subst (λ o. is_listed o ≡ true) typed (type_of_listed r.table)) in
      let iff = keeps_iff name (days_of config name) now r typed in
      rw typed ((λ h. iff.0 (sym one ∙ h), λ w. one ∙ iff.1 w))
]

-- A sweep keeps exactly the rows that are young enough for the limit of their type: all rows of a type
-- without a limit, or with one of zero days, and all rows of a table that no type prunes.
pub run_retention_sweep_iff :
    (db : Rows) (config : List RetentionRow) (now : ℕ) (r : TelemetryRow)
    → In r (run_retention_sweep db config now)
      ↔ (In r db × Within config now (type_of r.table) r.ts)
unfolding run_retention_sweep list_retention
run_retention_sweep_iff db config now r =
    let swept = sweep_each_iff (list_retention config) db now r in
    let same = all_keeps config retention_data_types now r in
    let limit = all_keeps_iff config now r in
    (
      λ m. let (n, k) = swept.0 m in (n, limit.0 (sym same ∙ k)),
      λ h. swept.1 (h.0, same ∙ limit.1 h.1),
    )
