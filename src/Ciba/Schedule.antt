-- ===== src/Ciba/Schedule.antt =====
-- How ciba_await ends, and when it polls.
use axiam_python_sdk.Base.{
  ℕ, zero, suc, ◌+◌, ◌*◌, ◌≤◌, max, ◌≡◌, ◌≢◌, refl, false, ◌⊎◌, inl, inr, List, [], ◌∷◌, leb,
  if_lem, leb_gt, arith,
}
use axiam_python_sdk.Ciba.{
  PollError, Step, pending, slow_down, transient, terminal, poll_step, local_expiry, Initiated,
  World, Turn, Ending, returned, raised, floor_after, after_step, after_poll, await_from,
  first_interval, deadline_of, ciba_await,
}

-- How a walk ends after its turns: every answer but the last is an error that is not terminal, and
-- the end is the last answer, or the local expiry.
pub data Follows {A : Type 0} : Ending A → List (Turn A) → Type 0 where
  expires : Follows (raised local_expiry) []
  returns : {t : Turn A} {a : A} → t.answer ≡ inl a → Follows (returned a) (t ∷ [])
  refuses :
      {t : Turn A} {e : PollError}
      → t.answer ≡ inr e
      → poll_step e.kind ≡ terminal
      → Follows (raised e) (t ∷ [])
  goes_on :
      {t : Turn A} {e : PollError} {ending : Ending A} {turns : List (Turn A)}
      → t.answer ≡ inr e
      → poll_step e.kind ≢ terminal
      → Follows ending turns
      → Follows ending (t ∷ turns)

module _ {A : Type 0} where
  after_step-Follows :
      (t : Turn A) (e : PollError) (step : Step) (interval : ℕ)
      (next : ℕ → ℕ → Ending A × List (Turn A))
      → t.answer ≡ inr e
      → poll_step e.kind ≡ step
      → ((i f : ℕ) → interval ≤ i → Follows (next i f).0 (next i f).1)
      → Follows (after_step step e interval next).0 (t ∷ (after_step step e interval next).1)
  after_step-Follows t e pending interval next said is h =
      goes_on said (λ t. ground arith) (h interval (floor_after e.retry_after) (omega arith))
  after_step-Follows t e transient interval next said is h =
      goes_on said (λ t. ground arith) (h interval (floor_after e.retry_after) (omega arith))
  after_step-Follows t e slow_down interval next said is h =
      goes_on said (λ t. ground arith) (h (interval + 5 * 1000) 0 (omega arith))
  after_step-Follows t e terminal interval next said is h = refuses said is

  after_poll-Follows :
      (t : Turn A) (answer : A ⊎ PollError) (interval : ℕ) (next : ℕ → ℕ → Ending A × List (Turn A))
      → t.answer ≡ answer
      → ((i f : ℕ) → interval ≤ i → Follows (next i f).0 (next i f).1)
      → Follows (after_poll answer interval next).0 (t ∷ (after_poll answer interval next).1)
  after_poll-Follows t (inl tokens) interval next said h = returns said
  after_poll-Follows t (inr e) interval next said h =
      after_step-Follows t e (poll_step e.kind) interval next said refl h

module _ {A : Type 0} (w : World A) (deadline : ℕ) where
  some_left :
      (fuel now interval floor : ℕ)
      → 1000 ≤ interval
      → deadline ≤ now + suc fuel * 1000
      → leb deadline (now + max interval floor) ≡ false
      → 1 ≤ fuel
  some_left zero now interval floor slow enough early =
      absurd (omega (arith, slow, enough, leb_gt deadline (now + max interval floor) early))
  some_left (suc fuel) now interval floor slow enough early = omega arith

  await_from-Follows :
      (fuel n now interval floor : ℕ)
      → 1000 ≤ interval
      → deadline ≤ now + fuel * 1000
      → 1 ≤ fuel
      → Follows
          (await_from w deadline fuel n now interval floor).0
          (await_from w deadline fuel n now interval floor).1
  await_from-Follows zero n now interval floor slow enough some_fuel =
      absurd (omega (arith, some_fuel))
  await_from-Follows (suc fuel) n now interval floor slow enough some_fuel =
      if_lem (λ (walk : Ending A × List (Turn A)). Follows walk.0 walk.1)
        (leb deadline (now + max interval floor)) (λ late. expires)
        (λ early.
          after_poll-Follows
            (record {
              wait = max interval floor;
              due = now + max interval floor;
              answer = w.answer n;
            })
            (w.answer n) interval _ refl
            (λ i f more.
              await_from-Follows fuel (n + 1) (now + max interval floor + w.overslept n + w.spent n)
                i f (omega (arith, slow, more)) (omega (arith, slow, enough))
                (some_left fuel now interval floor slow enough early)))

pub first_interval_positive : (i : Initiated) → 1000 ≤ first_interval i
first_interval_positive i = ground arith

module _ {A : Type 0} (w : World A) (i : Initiated) (now fuel : ℕ) where
  -- As many turns as there are seconds to the deadline, and at least one, end ciba_await, whatever the
  -- answers and however long the sleeps and the polls take: with the tokens or the terminal error of
  -- the last poll, every poll before it having met an error that is not terminal, or with the local
  -- expiry.
  pub ciba_await-Follows :
      deadline_of i ≤ now + fuel * 1000
      → 1 ≤ fuel
      → Follows (ciba_await w i now fuel).0 (ciba_await w i now fuel).1
  unfolding ciba_await
  ciba_await-Follows enough some_fuel =
      await_from-Follows w (deadline_of i) fuel 0 now (first_interval i) 0
        (first_interval_positive i) enough some_fuel
