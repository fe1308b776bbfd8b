-- ===== src/Backend/Scans.antt =====
-- Managed folder scans, apps/backend/src/services/scan-manager.ts: the entry of one monitor. The walk
-- of the share is a parameter: what it does is the sequence of its steps, each of which is one of the
-- callbacks that it is given or its end.
pub mod Coherence
use argus_monitor.Prelude.{
  ℕ, zero, suc, ◌+◌, ◌-◌, ◌*◌, ◌≡◌, String, Option, none, some, List, Bool, true, false, ◌&&◌, ◌||◌,
  not, ltb, leb, is_null, if◌then◌else◌,
}
use argus_monitor.Shared.{HealthStatus, up, degraded, down}

pub data ScanStatus : Type 0 where
  idle running paused done cancelled error : ScanStatus

pub record ScanProgress : Type 0 where
  pub folders : ℕ
  pub files : ℕ
  pub bytes : ℕ
  pub current : String

pub record FolderNode : Type 0 where
  pub name : String
  pub size_bytes : ℕ
  pub file_count : ℕ
  pub folder_count : Option ℕ

pub record ScanState : Type 0 where
  pub status : ScanStatus
  pub progress : Option ScanProgress
  pub started_at : Option ℕ
  pub finished_at : Option ℕ
  pub error : Option String
  pub cached_at : Option ℕ

-- Where a run is: between two callbacks; in a promise that waits to be resolved; or in one that was
-- resolved, with what follows it not yet run.
pub data Worker : Type 0 where
  active waiting released : Worker

-- `waiters` counts the functions in `resumeWaiters`; `run` is `none` while no run is in flight.
pub record Entry : Type 0 where
  pub state : ScanState
  pub paused : Bool
  pub cancelled : Bool
  pub waiters : ℕ
  pub cached_at : Option ℕ
  pub folders : Option (List FolderNode)
  pub cache_error : Option String
  pub run : Option Worker

abbrev pub new_entry : Entry
new_entry = record {
  state = record {
    status = ScanStatus.idle;
    progress = none;
    started_at = none;
    finished_at = none;
    error = none;
    cached_at = none;
  };
  paused = false;
  cancelled = false;
  waiters = 0;
  cached_at = none;
  folders = none;
  cache_error = none;
  run = none;
}

abbrev pub set_status : Entry → ScanStatus → Entry
set_status e status = record e { state = record e.state { status = status } }

-- Calling a waiter resolves the promise of the run that waits.
abbrev pub resolved : ℕ → Option Worker → Option Worker
resolved zero run = run
resolved (suc n) none = none
resolved (suc n) (some active) = some active
resolved (suc n) (some waiting) = some released
resolved (suc n) (some released) = some released

abbrev pub release : Entry → Entry
release e = record e { waiters = 0; run = resolved e.waiters e.run }

unfoldable pub pause_scan : Entry → Entry
pause_scan e = if is_null e.run then e else record e { paused = true }

unfoldable pub resume_scan : Entry → Entry
resume_scan e = release (record e { paused = false })

unfoldable pub cancel_scan : Entry → Entry
cancel_scan e = if is_null e.run then e else release (record e { cancelled = true; paused = false })

-- A run in flight is joined; otherwise one is begun.
unfoldable pub run_scan : Entry → ℕ → Entry
run_scan e now = if not (is_null e.run) then e else record e {
  cancelled = false;
  paused = false;
  state = record e.state {
    status = ScanStatus.running;
    started_at = some now;
    finished_at = none;
    error = none;
    progress = some (record { folders = 0; files = 0; bytes = 0; current = "" });
  };
  run = some active;
}

-- The callback `waitIfPaused`, up to its `await`.
unfoldable pub wait_if_paused : Entry → Entry
wait_if_paused e = if not e.paused then e else record e {
  state = record e.state { status = ScanStatus.paused };
  waiters = e.waiters + 1;
  run = some waiting;
}

-- What follows the `await`.
unfoldable pub wake : Entry → Entry
wake e = record e {
  state = record e.state {
    status = if not e.cancelled then ScanStatus.running else e.state.status;
  };
  run = some active;
}

unfoldable pub on_progress : Entry → ScanProgress → Entry
on_progress e p = record e { state = record e.state { progress = some p } }

-- What a scan finds of the share.
pub record StorageSample : Type 0 where
  pub reachable : Bool
  pub used_pct : Option ℕ
  pub folders : Option (List FolderNode)
  pub error : Option String

-- How a run ends: with a sample; because the walk saw the cancellation; or by another error.
pub data Ending : Type 0 where
  completed : StorageSample → Ending
  stopped : Ending
  failed : String → Ending

-- A sample of a share that answered is cached.
abbrev pub cache : Entry → StorageSample → ℕ → Entry
cache e sample now =
    if sample.reachable
    then record e {
      cached_at = some now;
      folders = sample.folders;
      cache_error = sample.error;
      state = record e.state { cached_at = some now };
    }
    else e

abbrev pub with_ending : Entry → Ending → ℕ → Entry
with_ending e (completed sample) now =
    let cached = cache e sample now in
    record cached { state = record cached.state { status = ScanStatus.done; error = sample.error } }
with_ending e stopped now = record e { state = record e.state { status = ScanStatus.cancelled } }
with_ending e (failed message) now = record e {
  state = record e.state { status = ScanStatus.error; error = some message };
}

-- The end of a run, with its `finally`.
unfoldable pub settle : Entry → Ending → ℕ → Entry
settle e ending now =
    let ended = with_ending e ending now in
    record ended { state = record ended.state { finished_at = some now }; run = none }

-- The folders of the cache, if it is not older than `ttl_ms`.
unfoldable pub cached_folders : Entry → ℕ → ℕ → Option (Option (List FolderNode) × Option String)
cached_folders e ttl_ms now = fresh e.cached_at
  where
    fresh : Option ℕ → Option (Option (List FolderNode) × Option String)
    fresh none = none
    fresh (some at) = if ltb ttl_ms (now - at) then none else some (e.folders, e.cache_error)

abbrev or_zero : Option ℕ → ℕ
or_zero none = 0
or_zero (some n) = n

-- A percentage is whole.
unfoldable pub status_for : StorageSample → HealthStatus
status_for s =
    if not s.reachable then down else if leb 90 (or_zero s.used_pct) then degraded else up
