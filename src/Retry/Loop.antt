-- ===== src/Retry/Loop.antt =====
-- Which calls the loop of src/axiam_sdk/_retry.py makes, and what it returns.
use axiam_python_sdk.Base.{
  ℕ, zero, suc, ◌+◌, ◌-◌, ◌≤◌, ◌<◌, ◌≡◌, refl, sym, ap, ◌∙◌, ◌⊎◌, inl, inr, Bool, true, false, List,
  [], ◌∷◌, ◌++◌, arith, if◌then◌else◌, Bool-cases,
}
use axiam_python_sdk.Retry.{
  Policy, Attempt, value, failure, Error, Event, called, emitted, slept, report, gives_up,
  wait_after, proceed, attempts_from, retry, max_attempts,
}

-- The attempts that a trace calls.
abbrev pub calls : List Event → List ℕ
calls [] = []
calls (called n ∷ trace) = n ∷ calls trace
calls (emitted n wait ∷ trace) = calls trace
calls (slept wait ∷ trace) = calls trace

-- n, n + 1, …: `count` numbers
abbrev pub count_up : ℕ → ℕ → List ℕ
count_up n zero = []
count_up n (suc count) = n ∷ count_up (n + 1) count

-- What lets the loop stop before its last attempt: a value, or a failure where it gives up.
abbrev pub IsFinal : {A : Type 0} → Policy A → ℕ → Attempt A → Type 0
IsFinal p n (value a) = Unit
IsFinal p n (failure e) = gives_up p n e ≡ true

-- The loop from attempt `n`, with `left` attempts after it, made `more` attempts after the first.
pub record Ran {A : Type 0} (p : Policy A) (left n : ℕ) (out : Attempt A × List Event)
    : Type 0 where
  pub more : ℕ
  pub bounded : more ≤ left
  pub called_in_turn : calls out.1 ≡ count_up n (suc more)
  pub answers_last : out.0 ≡ p.op (n + more)
  -- each failure before the last attempt was one that it may retry
  pub retried :
      (j : ℕ) → j < more → (e : Error) × (p.op (n + j) ≡ failure e) × (gives_up p (n + j) e ≡ false)
  pub stopped : (more ≡ left) ⊎ IsFinal p (n + more) (p.op (n + more))

shift : (n m : ℕ) → n + suc m ≡ n + 1 + m
shift n m = omega arith

shift_zero : (n : ℕ) → n + 0 ≡ n
shift_zero n = omega arith

module _ {A : Type 0} (p : Policy A) where
  calls-report :
      (b : Bool) (n w : ℕ) (trace : List Event)
      → calls (report b n w ++ (slept w ∷ trace)) ≡ calls trace
  calls-report true n w trace = refl
  calls-report false n w trace = refl

  -- one attempt, and nothing after it
  Ran-one :
      (left n : ℕ)
      → (left ≡ 0) ⊎ IsFinal p (n + 0) (p.op (n + 0))
      → Ran p left n (p.op n, called n ∷ [])
  Ran-one left n stop = record {
    more = 0;
    bounded = omega arith;
    called_in_turn = refl;
    answers_last = ap p.op (omega arith);
    retried = λ j lt. absurd (omega arith);
    stopped = elim stop [ inl e ↦ inl (sym e) | inr f ↦ inr f ];
  }

  retried_first :
      (n more : ℕ) (e : Error)
      → p.op n ≡ failure e
      → gives_up p n e ≡ false
      → ((j : ℕ)
          → j < more
          → (e' : Error) × (p.op (n + 1 + j) ≡ failure e') × (gives_up p (n + 1 + j) e' ≡ false))
      → (j : ℕ) → j < suc more
      → (e' : Error) × (p.op (n + j) ≡ failure e') × (gives_up p (n + j) e' ≡ false)
  retried_first n more e failed again h zero lt = rw (shift_zero n) (e, failed, again)
  retried_first n more e failed again h (suc j) lt = rw (shift n j) (h j (omega arith))

  Ran-next :
      (left n : ℕ) (e : Error) (rest : Attempt A × List Event)
      → p.op n ≡ failure e
      → gives_up p n e ≡ false
      → Ran p left (n + 1) rest
      → Ran p (suc left) n (proceed p n rest (failure e))
  unfolding proceed
  Ran-next left n e rest failed again r = rw again (record {
    more = suc r.more;
    bounded = omega (arith, r.bounded);
    called_in_turn =
        ap (λ ns. n ∷ ns) (calls-report p.telemetry n (wait_after p n e) rest.1 ∙ r.called_in_turn);
    answers_last = rw (shift n r.more) r.answers_last;
    retried = retried_first n r.more e failed again r.retried;
    stopped = rw (shift n r.more) (elim r.stopped [ inl k ↦ inl (ap suc k) | inr f ↦ inr f ]);
  })

  proceed-Ran :
      (left n : ℕ) (rest : Attempt A × List Event) (a : Attempt A)
      → p.op n ≡ a
      → Ran p left (n + 1) rest
      → Ran p (suc left) n (proceed p n rest a)
  unfolding proceed
  proceed-Ran left n rest (value a) e r =
      rw (← e) (Ran-one (suc left) n (inr (rw (shift_zero n, e) tt)))
  proceed-Ran left n rest (failure err) e r = elim (Bool-cases (gives_up p n err)) [
    | inl final ↦ rw (final, ← e) (Ran-one (suc left) n (inr (rw (shift_zero n, e) final)))
    | inr again ↦ unfold proceed in Ran-next left n err rest e again r
  ]

  attempts_from-Ran : (left n : ℕ) → Ran p left n (attempts_from p left n)
  unfolding attempts_from
  attempts_from-Ran zero n = Ran-one 0 n (inl refl)
  attempts_from-Ran (suc left) n =
      proceed-Ran left n (attempts_from p left (n + 1)) (p.op n) refl
        (attempts_from-Ran left (n + 1))

  -- A run calls attempts 1, 2, … in turn, at most three and exactly one where retries are off, and
  -- returns or raises what the last call gave. Every call before the last failed with an error that
  -- may be retried and whose wait did not reach the deadline, and the run stopped there because the
  -- attempts were used up, or it had a value, or it gives up after that failure.
  pub retry-Ran :
      (enabled : Bool) → Ran p (if enabled then max_attempts - 1 else 0) 1 (retry p enabled)
  unfolding retry
  retry-Ran enabled = attempts_from-Ran (if enabled then max_attempts - 1 else 0) 1

module _ {A : Type 0} (p : Policy A) where
  proceed_value :
      (rest : Attempt A × List Event) (r : Attempt A) (a : A)
      → r ≡ value a
      → proceed p 1 rest r ≡ (value a, called 1 ∷ [])
  unfolding proceed
  proceed_value rest r a e = ap (proceed p 1 rest) e

  -- A first attempt that returns is the only one.
  pub retry_value :
      (enabled : Bool) (a : A) → p.op 1 ≡ value a → retry p enabled ≡ (value a, called 1 ∷ [])
  unfolding retry attempts_from
  retry_value true a e = proceed_value (attempts_from p 1 2) (p.op 1) a e
  retry_value false a e = ap (λ r. (r, called 1 ∷ [])) e
