-- ===== src/Retry/Waits.antt =====
-- How long the loop of src/axiam_sdk/_retry.py sleeps, and when.
use axiam_python_sdk.Base.{
  ℕ, zero, suc, ◌+◌, ◌-◌, ◌≤◌, max, ◌≡◌, refl, Bool, true, false, List, [], ◌∷◌, ◌++◌, arith,
  if◌then◌else◌, Bool-cases, inl, inr, All,
}
use axiam_python_sdk.Retry.{
  Policy, Attempt, value, failure, Error, Event, called, emitted, slept, report, gives_up,
  wait_after, proceed, attempts_from, retry, should_retry, max_attempts, backoff, retry_after_of,
  reaches,
}
use axiam_python_sdk.Retry.Delay.{floor_of, delay_floor, delay_ceiling}

-- A wait that the policy allows: after the failure of an attempt that may be retried, at least the
-- server's hint, at most the backoff of that attempt or the hint, and short of the deadline.
pub record IsAllowed {A : Type 0} (p : Policy A) (wait : ℕ) : Type 0 where
  pub attempt : ℕ
  pub error : Error
  pub failed : p.op attempt ≡ failure error
  pub retryable : should_retry error ≡ true
  pub floored : floor_of (retry_after_of error) ≤ wait
  pub capped : wait ≤ max (backoff attempt) (floor_of (retry_after_of error))
  pub in_time : reaches p.deadline attempt wait ≡ false

abbrev pub IsAllowedEvent : {A : Type 0} → Policy A → Event → Type 0
IsAllowedEvent p (slept wait) = IsAllowed p wait
IsAllowedEvent p _ = Unit

-- The time that a trace sleeps.
abbrev pub total_sleep : List Event → ℕ
total_sleep [] = 0
total_sleep (slept wait ∷ trace) = wait + total_sleep trace
total_sleep (called n ∷ trace) = total_sleep trace
total_sleep (emitted n wait ∷ trace) = total_sleep trace

module _ {A : Type 0} (p : Policy A) where
  goes_on :
      (n : ℕ) (e : Error)
      → gives_up p n e ≡ false
      → (should_retry e ≡ true) × (reaches p.deadline n (wait_after p n e) ≡ false)
  unfolding gives_up
  goes_on n e h = ground arith

  wait-IsAllowed :
      (n : ℕ) (e : Error)
      → p.op n ≡ failure e
      → gives_up p n e ≡ false
      → IsAllowed p (wait_after p n e)
  unfolding wait_after
  wait-IsAllowed n e failed h = record {
    attempt = n;
    error = e;
    failed = failed;
    retryable = (goes_on n e h).0;
    floored = delay_floor n (retry_after_of e) (p.rand n);
    capped = delay_ceiling n (retry_after_of e) (p.rand n);
    in_time = unfold wait_after in (goes_on n e h).1;
  }

  All-report :
      (b : Bool) (n w : ℕ) (trace : List Event)
      → IsAllowed p w
      → All (IsAllowedEvent p) trace
      → All (IsAllowedEvent p) (report b n w ++ (slept w ∷ trace))
  All-report true n w trace h k = (tt, (h, k))
  All-report false n w trace h k = (h, k)

  proceed-All :
      (n : ℕ) (rest : Attempt A × List Event) (a : Attempt A)
      → p.op n ≡ a
      → All (IsAllowedEvent p) rest.1
      → All (IsAllowedEvent p) (proceed p n rest a).1
  unfolding proceed
  proceed-All n rest (value a) e h = (tt, tt)
  proceed-All n rest (failure err) e h = elim (Bool-cases (gives_up p n err)) [
    | inl final ↦ rw final (tt, tt)
    | inr again ↦
        rw again (
          tt,
          All-report p.telemetry n (wait_after p n err) rest.1 (wait-IsAllowed n err e again) h,
        )
  ]

  attempts_from-All : (left n : ℕ) → All (IsAllowedEvent p) (attempts_from p left n).1
  unfolding attempts_from
  attempts_from-All zero n = (tt, tt)
  attempts_from-All (suc left) n =
      proceed-All n (attempts_from p left (n + 1)) (p.op n) refl (attempts_from-All left (n + 1))

  -- Every sleep of a run follows the failure of an attempt with an error that may be retried, lasts
  -- at least the server's hint (cut to one hour) and at most the attempt's backoff or that hint, and
  -- ends before the deadline.
  pub retry-All_allowed : (enabled : Bool) → All (IsAllowedEvent p) (retry p enabled).1
  unfolding retry
  retry-All_allowed enabled = attempts_from-All (if enabled then max_attempts - 1 else 0) 1

-- The longest wait after each attempt, where the server gives at most `hint`.
abbrev pub longest : ℕ → ℕ → ℕ
longest hint n = max (backoff n) hint

abbrev pub budget : ℕ → ℕ → ℕ → ℕ
budget hint zero n = 0
budget hint (suc left) n = longest hint n + budget hint left (n + 1)

-- No failure carries a hint above `hint`.
abbrev pub HintsBelow : {A : Type 0} → Policy A → ℕ → Type 0
HintsBelow p hint = (n : ℕ) (e : Error) → p.op n ≡ failure e → floor_of (retry_after_of e) ≤ hint

module _ {A : Type 0} (p : Policy A) (hint : ℕ) (below : HintsBelow p hint) where
  total-report :
      (b : Bool) (n w : ℕ) (trace : List Event)
      → total_sleep (report b n w ++ (slept w ∷ trace)) ≡ w + total_sleep trace
  total-report true n w trace = refl
  total-report false n w trace = refl

  wait-le : (n : ℕ) (e : Error) → p.op n ≡ failure e → wait_after p n e ≤ longest hint n
  unfolding wait_after
  wait-le n e failed =
      omega (arith, delay_ceiling n (retry_after_of e) (p.rand n), below n e failed)

  proceed_total :
      (n : ℕ) (rest : Attempt A × List Event) (a : Attempt A)
      → p.op n ≡ a
      → total_sleep (proceed p n rest a).1 ≤ longest hint n + total_sleep rest.1
  unfolding proceed
  proceed_total n rest (value a) e = omega arith
  proceed_total n rest (failure err) e = elim (Bool-cases (gives_up p n err)) [
    | inl final ↦ rw final (omega arith)
    | inr again ↦
        rw again
          (omega (arith, total-report p.telemetry n (wait_after p n err) rest.1, wait-le n err e))
  ]

  attempts_from_total : (left n : ℕ) → total_sleep (attempts_from p left n).1 ≤ budget hint left n
  unfolding attempts_from
  attempts_from_total zero n = omega arith
  attempts_from_total (suc left) n = omega (
    arith,
    proceed_total n (attempts_from p left (n + 1)) (p.op n) refl,
    attempts_from_total left (n + 1),
  )

  -- Where no failure carries a hint above `hint`, a run sleeps at most the two longest waits, and
  -- not at all where retries are off.
  pub retry_total :
      (enabled : Bool) → total_sleep (retry p enabled).1 ≤ (if enabled then budget hint 2 1 else 0)
  unfolding retry
  retry_total true = attempts_from_total 2 1
  retry_total false = attempts_from_total 0 1

-- With no hints the two waits are 200 ms and 400 ms.
pub budget_no_hint : budget 0 2 1 ≡ 600_000
unfolding backoff
budget_no_hint = refl
