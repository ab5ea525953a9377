-- ===== src/Amqp/Consumer/Matrix.antt =====
-- The acknowledgement matrix of src/axiam_sdk/amqp/_consumer.py.
use axiam_python_sdk.Base.{ℕ, ◌≡◌, ◌↔◌, inl, inr, true, false, none, some, arith, Option-cases}
use axiam_python_sdk.Json.{Fields}
use axiam_python_sdk.Runtime.{Runtime, Bytes}
use axiam_python_sdk.Amqp.Replay.{NonceStore, validate_freshness}
use axiam_python_sdk.Amqp.Hmac.{verify_hmac}
use axiam_python_sdk.Amqp.Consumer.Signed.{Signed, verify_hmac-Signed, Signed-verify_hmac}
use axiam_python_sdk.Amqp.Consumer.Timely.{
  Timely, validate_freshness-Timely, Timely-validate_freshness,
}
use axiam_python_sdk.Amqp.Consumer.{
  Delivery, Outcome, ack, nack, Handled, returned, raised, parse_event, on_message, settle,
}

-- The checks of the code that a delivery has passed before the handler may see its event.
pub record Passes (rt : Runtime) (key : Bytes) (skew : ℕ) (d : Delivery) (s : NonceStore)
    (event : Fields) : Type 0 where
  pub signed : verify_hmac rt key d.body ≡ true
  pub parsed : parse_event (rt.loads d.body) ≡ some event
  pub fresh : (validate_freshness rt event skew d.wall d.mono s).1 ≡ none

module _ (rt : Runtime) (key : Bytes) (skew : ℕ) (d : Delivery) (s : NonceStore) where
  pub dispatched-Passes :
      (event : Fields)
      → (on_message rt key skew d s).1.dispatched ≡ some event
      → Passes rt key skew d s event
  unfolding on_message
  dispatched-Passes event h = ground arith

  Passes-dispatched :
      (event : Fields)
      → Passes rt key skew d s event
      → (on_message rt key skew d s).1.dispatched ≡ some event
  unfolding on_message
  Passes-dispatched event p = ground arith

  -- The handler is called with an event exactly when the body loads as an object that is the event
  -- with a signature member put in, this signature is the hex of the event's MAC under the key, and
  -- the event is timely: its key version is at least two, its moment is not farther from the clock
  -- than the skew, and it has a nonce that is not empty and that the store does not hold beyond now.
  pub dispatched_iff :
      (event : Fields)
      → ((on_message rt key skew d s).1.dispatched ≡ some event)
        ↔ (Signed rt key d.body event × Timely rt skew d.wall d.mono s.seen event)
  dispatched_iff event = (
    λ h.
        let p = dispatched-Passes event h in
        (
          verify_hmac-Signed rt key d.body event p.signed p.parsed,
          validate_freshness-Timely rt skew d.wall d.mono s event p.fresh,
        ),
    λ both.
        let (signed, parsed) = Signed-verify_hmac rt key d.body event both.0 in
        Passes-dispatched event (record {
          signed = signed;
          parsed = parsed;
          fresh = Timely-validate_freshness rt skew d.wall d.mono s event both.1;
        }),
  )

  abbrev pub outcome : Outcome
  outcome = (on_message rt key skew d s).1

  -- The handler was called, and ended in the given way.
  abbrev pub Ended : Handled → Type 0
  Ended h = (event : Fields) × (outcome.dispatched ≡ some event) × (d.handler ≡ h)

  dispatched_settles :
      (event : Fields) → outcome.dispatched ≡ some event → outcome.settled ≡ settle d.handler
  unfolding on_message
  dispatched_settles event h = ground arith

  undispatched_settles : outcome.dispatched ≡ none → outcome.settled ≡ nack false
  unfolding on_message
  undispatched_settles h = ground arith

  -- A delivery is acknowledged exactly when the handler was called and returned, and requeued
  -- exactly when it was called and raised anything but ErrDrop.
  pub settled_iff :
      ((outcome.settled ≡ ack) ↔ Ended returned) × ((outcome.settled ≡ nack true) ↔ Ended raised)
  settled_iff = elim (Option-cases outcome.dispatched) [
    | inl never ↦
        let e = undispatched_settles never in
        ((λ h. cc, λ (event, called, _). cc), (λ h. ground (arith, e), λ (event, called, _). cc))
    | inr (event, called) ↦
        let e = dispatched_settles event called in
        (
          (λ h. (event, called, ground (arith, e)), λ (_, _, h). ground (arith, e)),
          (λ h. (event, called, ground (arith, e)), λ (_, _, h). ground (arith, e)),
        )
  ]
