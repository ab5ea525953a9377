-- ===== src/Ciba/Patience.antt =====
-- How long ciba_await waits before each poll.
use axiam_python_sdk.Base.{
  ℕ, zero, suc, ◌+◌, ◌*◌, ◌≤◌, ◌<◌, max, ◌≡◌, subst, ◌⊎◌, inl, inr, List, [], ◌∷◌, ◌++◌, leb,
  if_lem, leb_gt, arith,
}
use axiam_python_sdk.Ciba.{
  PollError, Step, pending, slow_down, transient, terminal, poll_step, Initiated, World, Turn,
  Ending, floor_after, after_step, after_poll, await_from, first_interval, deadline_of, ciba_await,
}

abbrev slow_step : Step → ℕ
slow_step slow_down = 1
slow_step _ = 0

abbrev asked_step : Step → PollError → ℕ
asked_step pending e = floor_after e.retry_after
asked_step transient e = floor_after e.retry_after
asked_step _ e = 0

module _ {A : Type 0} where
  abbrev slow_answer : A ⊎ PollError → ℕ
  slow_answer (inl tokens) = 0
  slow_answer (inr e) = slow_step (poll_step e.kind)

  -- what the next wait is to reach, by a Retry-After
  abbrev asked_by : A ⊎ PollError → ℕ
  asked_by (inl tokens) = 0
  asked_by (inr e) = asked_step (poll_step e.kind) e

  -- what the last of the turns asked for, or else the first number
  abbrev pub last_asked : ℕ → List (Turn A) → ℕ
  last_asked floor [] = floor
  last_asked floor (t ∷ turns) = last_asked (asked_by t.answer) turns

  -- how many polls were answered slow_down
  abbrev pub slow_downs : List (Turn A) → ℕ
  slow_downs [] = 0
  slow_downs (t ∷ turns) = slow_answer t.answer + slow_downs turns

module _ {A : Type 0} (deadline : ℕ) where
  abbrev Patient : ℕ → ℕ → List (Turn A) → Type 0
  Patient base floor [] = Unit
  Patient base floor (t ∷ turns) =
      (base ≤ t.wait)
      × (floor ≤ t.wait)
      × (t.due < deadline)
      × Patient (base + 5000 * slow_answer t.answer) (asked_by t.answer) turns

  after_step-Patient :
      (base interval : ℕ) (step : Step) (e : PollError) (next : ℕ → ℕ → Ending A × List (Turn A))
      → base ≤ interval
      → ((i f : ℕ)
          → base + 5000 * slow_step step ≤ i
          → asked_step step e ≤ f
          → Patient (base + 5000 * slow_step step) (asked_step step e) (next i f).1)
      → Patient
          (base + 5000 * slow_step step)
          (asked_step step e)
          (after_step step e interval next).1
  after_step-Patient base interval pending e next slow h = h _ _ (omega (arith, slow)) (omega arith)
  after_step-Patient base interval transient e next slow h =
      h _ _ (omega (arith, slow)) (omega arith)
  after_step-Patient base interval slow_down e next slow h =
      h _ _ (omega (arith, slow)) (omega arith)
  after_step-Patient base interval terminal e next slow h = _

  after_poll-Patient :
      (base interval : ℕ) (answer : A ⊎ PollError) (next : ℕ → ℕ → Ending A × List (Turn A))
      → base ≤ interval
      → ((i f : ℕ)
          → base + 5000 * slow_answer answer ≤ i
          → asked_by answer ≤ f
          → Patient (base + 5000 * slow_answer answer) (asked_by answer) (next i f).1)
      → Patient
          (base + 5000 * slow_answer answer)
          (asked_by answer)
          (after_poll answer interval next).1
  after_poll-Patient base interval (inl tokens) next slow h = _
  after_poll-Patient base interval (inr e) next slow h =
      after_step-Patient base interval (poll_step e.kind) e next slow h

  await_from-Patient :
      (w : World A) (base asked fuel n now interval floor : ℕ)
      → base ≤ interval
      → asked ≤ floor
      → Patient base asked (await_from w deadline fuel n now interval floor).1
  await_from-Patient w base asked zero n now interval floor slow long = _
  await_from-Patient w base asked (suc fuel) n now interval floor slow long =
      if_lem (λ (walk : Ending A × List (Turn A)). Patient base asked walk.1)
        (leb deadline (now + max interval floor)) (λ late. _)
        (λ early. (
          omega (arith, slow),
          omega (arith, long),
          leb_gt deadline (now + max interval floor) early,
          after_poll-Patient base interval (w.answer n) _ slow (λ i f more enough.
              await_from-Patient w (base + 5000 * slow_answer (w.answer n)) (asked_by (w.answer n))
                fuel (n + 1) (now + max interval floor + w.overslept n + w.spent n) i f more
                enough),
        ))

  Patient-at :
      (base floor : ℕ) (earlier : List (Turn A)) (t : Turn A) (later : List (Turn A))
      → Patient base floor (earlier ++ (t ∷ later))
      → (base + 5000 * slow_downs earlier ≤ t.wait)
        × (last_asked floor earlier ≤ t.wait)
        × (t.due < deadline)
  Patient-at base floor [] t later (waited, long, due, rest) = (omega (arith, waited), long, due)
  Patient-at base floor (s ∷ earlier) t later (waited, long, due, rest) =
      let (slow, asked, early) =
        Patient-at (base + 5000 * slow_answer s.answer) (asked_by s.answer) earlier t later rest in
      (omega (arith, slow), asked, early)

module _ {A : Type 0} (w : World A) (i : Initiated) (now fuel : ℕ) where
  -- Each wait of ciba_await is at least the interval and five seconds more for every slow_down before
  -- it, and at least the Retry-After of the poll just before it where that was pending or transient;
  -- and each wait ends, by the clock that was read before it, ahead of the deadline.
  pub ciba_await_waits :
      (earlier : List (Turn A)) (t : Turn A) (later : List (Turn A))
      → (ciba_await w i now fuel).1 ≡ earlier ++ (t ∷ later)
      → (first_interval i + 5000 * slow_downs earlier ≤ t.wait)
        × (last_asked 0 earlier ≤ t.wait)
        × (t.due < deadline_of i)
  unfolding ciba_await
  ciba_await_waits earlier t later same =
      Patient-at (deadline_of i) (first_interval i) 0 earlier t later (
        subst (Patient (deadline_of i) (first_interval i) 0) same (
          await_from-Patient (deadline_of i) w (first_interval i) 0 fuel 0 now (first_interval i) 0
            (omega arith) (omega arith)))
