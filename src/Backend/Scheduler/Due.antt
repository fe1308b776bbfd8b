-- ===== src/Backend/Scheduler/Due.antt =====
-- When a run is started, and what it records.
use argus_monitor.Prelude.{
  ℕ, zero, suc, ◌≡◌, refl, sym, ap, ◌∙◌, arith, String, Option, none, some, List, [], ◌∷◌, Bool,
  Bool-cases, inl, inr, true, false, ◌&&◌, ◌||◌, not, ◌==◌, eq_iff, eq_refl, any, find-some,
  is_null, adjust, find-update_where, includes, if◌then◌else◌,
}
use argus_monitor.Shared.Schedule.{MonitorSchedule}
use argus_monitor.Backend.Scheduler.{
  Monitor, ProbeResult, retry, run, RunState, States, ensure, state_of, is_due, start, tick,
}

-- Some attempt of a range is up.
abbrev pub any_up : (ℕ → ProbeResult) → ℕ → ℕ → Bool
any_up probe i zero = false
any_up probe i (suc left) = (probe i).is_up || any_up probe (suc i) left

up_if :
    (b : Bool) (x y : ProbeResult) → (if b then x else y).is_up ≡ (if b then x.is_up else y.is_up)
up_if true x y = refl
up_if false x y = refl

retry_lem :
    (probe : ℕ → ProbeResult) (result : ProbeResult) (i left : ℕ)
    → (retry probe result i left).is_up ≡ (result.is_up || any_up probe i left)
unfolding retry
retry_lem probe result i zero = ground arith
retry_lem probe result i (suc left) =
    rw
      (
        up_if result.is_up result (retry probe (probe i) (suc i) left),
        retry_lem probe (probe i) (suc i) left,
      )
      (ground arith)

-- A run is up exactly when one of its attempts is: the first one, or one of the retries.
pub run-any_up :
    (probe : ℕ → ProbeResult) (sched : MonitorSchedule)
    → (run probe sched).is_up ≡ any_up probe 0 (suc sched.retries)
unfolding run
run-any_up probe sched = retry_lem probe (probe 0) 1 sched.retries

due_ensure :
    (states : States) (id other : String) (now : ℕ) (o : Option RunState)
    → state_of states id ≡ o
    → is_due now (state_of (ensure states id now o) other) ≡ is_due now (state_of states other)
due_ensure states id other now (some s) e = refl
due_ensure states id other now none e = elim (Bool-cases (id == other)) [
  | inl same ↦ rw same (
      ground arith
      ∙ sym (ap (is_due now) (ap (state_of states) (sym ((eq_iff id other).0 same)) ∙ e)))
  | inr differ ↦ rw differ refl
]

ensured :
    (states : States) (id : String) (now : ℕ) (o : Option RunState)
    → state_of states id ≡ o
    → (s : RunState) × (state_of (ensure states id now o) id ≡ some s)
ensured states id now (some s) e = (s, e)
ensured states id now none e =
    (record { id = id; next_due = now; inflight = false }, rw (eq_refl id) refl)

-- A started monitor is not due, and every other one is as it was.
due_adjust :
    (id other : String) (now : ℕ) (o : Option RunState)
    → ((s : RunState) → o ≡ some s → (s.id == other) ≡ true)
    → ((id == other) ≡ true → is_null o ≡ false)
    → is_due now (adjust (λ s. s.id == id) (λ s. record s { inflight = true }) o)
      ≡ (not (id == other) && is_due now o)
due_adjust id other now none own there = ground arith
due_adjust id other now (some s) own there =
    ground (arith, own s refl, eq_iff s.id other, eq_iff s.id id, eq_iff id other)

due_start :
    (states : States) (id other : String) (now : ℕ) (s : RunState)
    → state_of states id ≡ some s
    → is_due now (state_of (start states id) other)
      ≡ (not (id == other) && is_due now (state_of states other))
due_start states id other now s e =
    ap (is_due now) (
      find-update_where (λ x. x.id == other) (λ x. x.id == id) (λ x. record x { inflight = true })
        states (λ x. refl))
    ∙ due_adjust id other now (state_of states other)
        (λ x h. (find-some (λ y. y.id == other) states h).1)
        (λ same. ap is_null (ap (state_of states) (sym ((eq_iff id other).0 same)) ∙ e))

started_if :
    (b : Bool) (id : String) (x y : States × List String) (m : String)
    → includes (if b then (x.0, m ∷ x.1) else y).1 id
      ≡ (if b then m == id || includes x.1 id else includes y.1 id)
started_if true id x y m = refl
started_if false id x y m = refl

same_due :
    (states : States) (a b : String) (now : ℕ)
    → (a == b) ≡ true
    → is_due now (state_of states a) ≡ is_due now (state_of states b)
same_due states a b now same = ap (λ x. is_due now (state_of states x)) ((eq_iff a b).0 same)

-- A tick starts a run of exactly the monitors of its worklist that are due: those that no run is in
-- flight of and whose next run is not in the future, or that were never run.
pub tick-started :
    (worklist : List Monitor) (states : States) (now : ℕ) (id : String)
    → includes (tick states worklist now).1 id
      ≡ (any (λ m. m.id == id) worklist && is_due now (state_of states id))
unfolding tick
tick-started [] states now id = ground arith
tick-started (m ∷ worklist) states now id =
    let (s, e) = ensured states m.id now (state_of states m.id) refl in
    let known = ensure states m.id now (state_of states m.id) in
    started_if (is_due now (state_of states m.id)) id (tick (start known m.id) worklist now)
      (tick known worklist now) m.id
    ∙ rw
        (
          tick-started worklist (start known m.id) now id,
          tick-started worklist known now id,
          due_start known m.id id now s e,
          due_ensure states m.id id now (state_of states m.id) refl,
        )
        (ground (arith, same_due states m.id id now))
