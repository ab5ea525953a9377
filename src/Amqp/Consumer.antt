-- ===== src/Amqp/Consumer.antt =====
-- src/axiam_sdk/amqp/_consumer.py: one delivery verified, parsed, checked and dispatched, and the
-- loop over deliveries that shares one nonce store. Between the checks of a delivery and its entry
-- in the store there is no `await`, so deliveries that overlap still reach the store one by one.
pub mod Signed
pub mod Timely
pub mod Matrix
pub mod Replays
use axiam_python_sdk.Base.{
  ℕ, ◌*◌, Bool, true, false, Option, none, some, List, [], ◌∷◌, if◌then◌else◌,
}
use axiam_python_sdk.Json.{Value, obj, Fields, pop}
use axiam_python_sdk.Runtime.{Runtime, Bytes}
use axiam_python_sdk.Amqp.Replay.{NonceStore, Reason, new_store, validate_freshness}
use axiam_python_sdk.Amqp.Hmac.{verify_hmac}

-- What the handler did with an event: it returned, raised ErrDrop, or raised another exception.
pub data Handled : Type 0 where
  returned raised_drop raised : Handled

-- How a delivery is settled; `nack` carries the `requeue` flag.
pub data Settlement : Type 0 where
  ack : Settlement
  nack : Bool → Settlement

-- The security log line of a refused delivery.
pub data Warning : Type 0 where
  hmac_failed parse_failed : Warning
  replay_failed : Reason → Warning

pub record Outcome : Type 0 where
  -- the event that the handler was called with
  pub dispatched : Option Fields
  pub settled : Settlement
  pub logged : Option Warning

abbrev pub refused : Warning → Outcome
refused w = record { dispatched = none; settled = nack false; logged = some w }

pub record Delivery : Type 0 where
  pub body : Bytes
  -- the clocks when it is processed
  pub wall : ℕ
  pub mono : ℕ
  -- what the handler would do with it
  pub handler : Handled

abbrev pub settle : Handled → Settlement
settle returned = ack
settle raised_drop = nack false
settle raised = nack true

abbrev pub dispatch : Fields → Handled → Outcome
dispatch event h = record { dispatched = some event; settled = settle h; logged = none }

-- json.loads and the removal of the signature; none for a body that is not an object
unfoldable pub parse_event : Option Value → Option Fields
parse_event (some (obj event)) = some (pop "hmac_signature" event)
parse_event _ = none

abbrev pub judge : Fields → Handled → Option Reason → Outcome
judge event h none = dispatch event h
judge event h (some reason) = refused (replay_failed reason)

module _ (rt : Runtime) (key : Bytes) (skew : ℕ) where
  unfoldable pub check_event : Option Fields → Delivery → NonceStore → NonceStore × Outcome
  check_event none d s = (s, refused parse_failed)
  check_event (some event) d s =
      let (s', reason) = validate_freshness rt event skew d.wall d.mono s in
      (s', judge event d.handler reason)

  -- _on_message
  unfoldable pub on_message : Delivery → NonceStore → NonceStore × Outcome
  unfolding check_event
  on_message d s =
      if verify_hmac rt key d.body
      then check_event (parse_event (rt.loads d.body)) d s
      else (s, refused hmac_failed)

  -- the store after a row of deliveries
  unfoldable pub serve : NonceStore → List Delivery → NonceStore
  serve s [] = s
  serve s (d ∷ ds) = serve (on_message d s).0 ds

  -- consume with its own store: one for the whole loop
  unfoldable pub consume : List Delivery → NonceStore
  consume ds = serve (new_store (2 * skew)) ds
