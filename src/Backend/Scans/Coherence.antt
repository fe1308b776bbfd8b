-- ===== src/Backend/Scans/Coherence.antt =====
-- What a scan's entry can be, whatever the order of the calls and of the steps of its run.
use argus_monitor.Prelude.{
  ℕ, ◌≡◌, refl, arith, Option, none, some, Bool, true, false, ◌&&◌, ◌||◌, not, nat_eq,
}
use argus_monitor.Backend.Scans.{
  ScanStatus, Worker, active, waiting, released, ScanProgress, Entry, new_entry, pause_scan,
  resume_scan, cancel_scan, run_scan, wait_if_paused, wake, on_progress, Ending, stopped, settle,
}

abbrev pub is_paused : ScanStatus → Bool
is_paused ScanStatus.paused = true
is_paused _ = false

abbrev pub is_running : ScanStatus → Bool
is_running ScanStatus.running = true
is_running _ = false

-- The walk throws the cancellation only when it has seen it.
abbrev pub Allowed : Entry → Ending → Type 0
Allowed e stopped = e.cancelled ≡ true
Allowed e _ = Unit {0}

-- One step: a call of the API, or what the run in flight does.
pub data Step : Entry → Entry → Type 0 where
  begin : (e : Entry) (now : ℕ) → Step e (run_scan e now)
  pause : (e : Entry) → Step e (pause_scan e)
  resume : (e : Entry) → Step e (resume_scan e)
  cancel : (e : Entry) → Step e (cancel_scan e)
  check : (e : Entry) → e.run ≡ some active → Step e (wait_if_paused e)
  go_on : (e : Entry) → e.run ≡ some released → Step e (wake e)
  report : (e : Entry) (p : ScanProgress) → e.run ≡ some active → Step e (on_progress e p)
  finish :
      (e : Entry) (ending : Ending) (now : ℕ)
      → e.run ≡ some active
      → Allowed e ending
      → Step e (settle e ending now)

pub data Reachable : Entry → Type 0 where
  start : Reachable new_entry
  next : {e f : Entry} → Reachable e → Step e f → Reachable f

-- With no run in flight there is no waiter and the status is that of no run; an active run shows as
-- running, or as paused when it was cancelled in its pause; a run that waits shows as paused, the flag
-- is up and its waiter is registered; a run that was released still shows as paused.
abbrev pub coherent_run : Option Worker → ScanStatus → Bool → Bool → ℕ → Bool
coherent_run none status flag was_cancelled waiters =
    nat_eq waiters 0 && not (is_running status) && not (is_paused status)
coherent_run (some active) status flag was_cancelled waiters =
    nat_eq waiters 0 && (is_running status || (is_paused status && was_cancelled))
coherent_run (some waiting) status flag was_cancelled waiters =
    nat_eq waiters 1 && is_paused status && flag
coherent_run (some released) status flag was_cancelled waiters =
    nat_eq waiters 0 && is_paused status

abbrev pub is_coherent : Entry → Bool
is_coherent e = coherent_run e.run e.state.status e.paused e.cancelled e.waiters

step_coherent : {e f : Entry} → Step e f → is_coherent e ≡ true → is_coherent f ≡ true
unfolding run_scan pause_scan resume_scan cancel_scan wait_if_paused wake on_progress settle
step_coherent (begin e now) h = ground arith
step_coherent (pause e) h = ground arith
step_coherent (resume e) h = ground arith
step_coherent (cancel e) h = ground arith
step_coherent (check e r) h = ground arith
step_coherent (go_on e r) h = ground arith
step_coherent (report e p r) h = ground arith
step_coherent (finish e ending now r allowed) h = ground arith

-- In every state that the calls and the run can reach, in any order, the status, the flags and the
-- registered waiters agree with where the run is.
pub Reachable-coherent : {e : Entry} → Reachable e → is_coherent e ≡ true
Reachable-coherent start = refl
Reachable-coherent (next r s) = step_coherent s (Reachable-coherent r)

waiting_released :
    (e : Entry)
    → is_coherent e ≡ true
    → e.run ≡ some waiting
    → ((resume_scan e).run ≡ some released) × ((cancel_scan e).run ≡ some released)
unfolding resume_scan cancel_scan
waiting_released e h w = (ground arith, ground arith)

-- A scan that waits in a pause can always be woken: to resume it, and to cancel it, releases it.
pub Reachable-released :
    {e : Entry}
    → Reachable e
    → e.run ≡ some waiting
    → ((resume_scan e).run ≡ some released) × ((cancel_scan e).run ≡ some released)
Reachable-released r w = waiting_released _ (Reachable-coherent r) w
