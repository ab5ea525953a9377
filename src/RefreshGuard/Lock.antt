-- ===== src/RefreshGuard/Lock.antt =====
-- The threads and tasks that share one guard of src/axiam_sdk/token/refresh_guard.py, as
-- interleavings. A task that waits in the executor for the lock is like a thread that waits for it.
use axiam_python_sdk.Base.{ℕ, String, ◌≡◌, true, false, Option, none, some, eqb, if◌then◌else◌}
use axiam_python_sdk.RefreshGuard.{
  Guard, Refreshed, Outcome, should_skip_refresh, require_cached_access, refreshed, seed,
}

-- Where a thread stands.
pub data Phase : Type 0 where
  idle : Phase
  -- refresh_if_needed was called with what it observed, and waits for the lock
  waiting : Option String → Phase
  -- it holds the lock, and do_refresh runs
  refreshing : Option String → Phase
  -- run_exclusive holds the lock, and fn runs
  exclusive : Phase
  returned : Outcome → Phase

pub record System : Type 0 where
  pub guard : Guard
  pub lock : Option ℕ
  pub phase : ℕ → Phase

abbrev pub update : (ℕ → Phase) → ℕ → Phase → ℕ → Phase
update phases t p u = if eqb u t then p else phases u

abbrev pub init : Guard → System
init g = record { guard = g; lock = none; phase = λ t. idle }

-- One thread moves.
pub data Step (s : System) : System → Type 0 where
  call :
      (t : ℕ) (observed : Option String)
      → s.phase t ≡ idle
      → Step s (record s { phase = update s.phase t (waiting observed) })
  -- it gets the lock, finds the cache fresh, and releases it
  skip :
      (t : ℕ) (observed : Option String)
      → s.phase t ≡ waiting observed
      → s.lock ≡ none
      → should_skip_refresh s.guard observed ≡ true
      → Step s (record s { phase = update s.phase t (returned (require_cached_access s.guard)) })
  -- it gets the lock and calls do_refresh
  start :
      (t : ℕ) (observed : Option String)
      → s.phase t ≡ waiting observed
      → s.lock ≡ none
      → should_skip_refresh s.guard observed ≡ false
      → Step s (record s { lock = some t; phase = update s.phase t (refreshing observed) })
  -- do_refresh returns or raises, and the lock is released
  finish :
      (t : ℕ) (observed : Option String) (result : Option Refreshed)
      → s.phase t ≡ refreshing observed
      → Step s (record {
        guard = (refreshed s.guard result).guard;
        lock = none;
        phase = update s.phase t (returned (refreshed s.guard result).outcome);
      })
  enter :
      (t : ℕ)
      → s.phase t ≡ idle
      → s.lock ≡ none
      → Step s (record s { lock = some t; phase = update s.phase t exclusive })
  leave :
      (t : ℕ)
      → s.phase t ≡ exclusive
      → Step s (record s { lock = none; phase = update s.phase t idle })
  again :
      (t : ℕ) (o : Outcome)
      → s.phase t ≡ returned o
      → Step s (record s { phase = update s.phase t idle })

-- A login may seed the cache at any moment: it takes no lock.
pub data Move (s : System) : System → Type 0 where
  step : {u : System} → Step s u → Move s u
  log_in :
      (access : String) (refresh : Option String) (exp : Option ℕ)
      → Move s (record s { guard = seed access refresh exp s.guard })

pub data Reach (s : System) : System → Type 0 where
  here : Reach s s
  next : {u v : System} → Reach s u → Move u v → Reach s v

-- Runs in which nobody logs in.
pub data Quiet (s : System) : System → Type 0 where
  here : Quiet s s
  next : {u v : System} → Quiet s u → Step u v → Quiet s v
