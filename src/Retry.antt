-- ===== src/Retry.antt =====
-- src/axiam_sdk/_retry.py: the bounded retry of a read-only call. Times are microseconds, so a
-- millisecond of the source is 1000, and a jitter draw is in thousandths. `op`, `rand` and
-- `deadline` are the callbacks, each as a function of the attempt at which it is called.
pub mod Delay
pub mod Loop
pub mod Waits
use axiam_python_sdk.Base.{
  ℕ, zero, suc, ◌+◌, ◌-◌, ◌*◌, ◌/◌, ◌^◌, min, max, String, Bool, true, false, ◌&&◌, ◌||◌, Option,
  none, some, List, [], ◌∷◌, ◌++◌, leb, eqb, if◌then◌else◌,
}
use axiam_python_sdk.Base.Int.{ℤ, pos_part}

abbrev pub max_attempts : ℕ
max_attempts = 3

abbrev pub base_delay : ℕ
base_delay = 200_000

abbrev pub max_delay : ℕ
max_delay = 5_000_000

abbrev pub max_retry_after : ℕ
max_retry_after = 3_600_000_000

-- backoff_ms
unfoldable pub backoff : ℕ → ℕ
backoff attempt = min max_delay (base_delay * 2 ^ (attempt - 1))

-- delay_ms: full jitter, raised to the server's hint
unfoldable pub delay : ℕ → Option ℕ → ℤ → ℕ
unfolding backoff
delay attempt none fraction = backoff attempt * min (pos_part fraction) 1000 / 1000
delay attempt (some hint) fraction =
    max (backoff attempt * min (pos_part fraction) 1000 / 1000) hint

unfoldable pub status_is_retryable : ℕ → Bool
status_is_retryable status = eqb status 408 || eqb status 429 || (leb 500 status && leb status 599)

-- What an attempt raises: a NetworkError with its `retry_after_ms`, if any, or anything else.
pub data Error : Type 0 where
  network : Option ℕ → String → Error
  other : String → Error

pub data Attempt (A : Type 0) : Type 0 where
  value : A → Attempt A
  failure : Error → Attempt A

-- _retry_after_of
unfoldable pub retry_after_of : Error → Option ℕ
retry_after_of (network (some hint) reason) = some (min hint max_retry_after)
retry_after_of _ = none

unfoldable pub should_retry : Error → Bool
should_retry (network hint reason) = true
should_retry (other reason) = false

-- What a run does besides computing its result: calls of `op`, `Retry` telemetry events and sleeps.
pub data Event : Type 0 where
  called : ℕ → Event
  emitted : ℕ → ℕ → Event
  slept : ℕ → Event

pub record Policy (A : Type 0) : Type 0 where
  pub op : ℕ → Attempt A
  pub rand : ℕ → ℤ
  -- the time left when it is asked; a deadline that has passed has none
  pub deadline : Option (ℕ → ℕ)
  pub telemetry : Bool

abbrev pub reaches : Option (ℕ → ℕ) → ℕ → ℕ → Bool
reaches none attempt wait = false
reaches (some left) attempt wait = leb (left attempt) wait

abbrev pub report : Bool → ℕ → ℕ → List Event
report true attempt wait = emitted attempt wait ∷ []
report false attempt wait = []

module _ {A : Type 0} (p : Policy A) where
  -- the wait after the failure of an attempt
  unfoldable pub wait_after : ℕ → Error → ℕ
  wait_after attempt e = delay attempt (retry_after_of e) (p.rand attempt)

  -- whether the failure is raised although attempts are left
  unfoldable pub gives_up : ℕ → Error → Bool
  unfolding should_retry
  gives_up attempt e =
      if should_retry e then reaches p.deadline attempt (wait_after attempt e) else true

  -- what follows one attempt: `rest` is the loop from the next
  pub proceed : ℕ → Attempt A × List Event → Attempt A → Attempt A × List Event
  proceed n rest (value a) = (value a, called n ∷ [])
  proceed n rest (failure e) = if gives_up n e then (failure e, called n ∷ []) else (
    rest.0,
    called n ∷ (report p.telemetry n (wait_after n e) ++ (slept (wait_after n e) ∷ rest.1)),
  )

  -- the loop from attempt `n`, with `left` attempts after it
  pub attempts_from : ℕ → ℕ → Attempt A × List Event
  unfolding proceed
  attempts_from zero n = (p.op n, called n ∷ [])
  attempts_from (suc left) n = let rest = attempts_from left (n + 1) in proceed n rest (p.op n)

  -- retry_sync, and retry_async, which does the same with awaits
  unfoldable pub retry : Bool → Attempt A × List Event
  unfolding attempts_from
  retry enabled = attempts_from (if enabled then max_attempts - 1 else 0) 1
