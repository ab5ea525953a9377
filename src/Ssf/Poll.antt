-- ===== src/Ssf/Poll.antt =====
-- The batch of SsfReceiver.poll in src/axiam_sdk/ssf/_receiver.py: every token of a reply is judged,
-- and the good ones are recorded.
pub mod Logged
pub mod Partition
pub mod Outage
pub mod Total
use axiam_python_sdk.Base.{ℕ, String, Bool, true, false, Option, none, some, List, [], ◌∷◌, length}
use axiam_python_sdk.Json.{Value, str}
use axiam_python_sdk.Ssf.{
  Failure, FailureReason, refusal, network, network_from, auth, authz, other, Result, ok, raised,
  malformed, SecurityEvent, RefusedSet,
}
use axiam_python_sdk.Ssf.Keys.{Core}
use axiam_python_sdk.Ssf.Store.{Answer, fresh, held, cannot, Asks, settle, store_failure}
use axiam_python_sdk.Ssf.Verify.{Setup, World, judge_set}

-- One member of the reply's `sets`, and what its verification meets.
pub record Entry : Type 0 where
  pub jti : String
  pub set : Value
  pub world : World

pub data Category : Type 0 where
  key_fetch replay_store : Category

-- The first failure that is no verdict.
abbrev pub Trouble : Type 0
Trouble = Option (Failure × Category)

pub record Collected : Type 0 where
  pub events : List SecurityEvent
  pub refused : List RefusedSet
  pub unjudged : List String
  pub trouble : Trouble

-- A batch: the state after it, and how it ended.
pub record Batch (S : Type 0) : Type 0 where
  pub core : Core
  pub store : S
  pub ended : Result Collected

abbrev pub keys_of : List Entry → List String
keys_of [] = []
keys_of (e ∷ es) = e.jti ∷ keys_of es

-- `failure or fetch`
abbrev pub first_trouble : Trouble → Failure → Trouble
first_trouble none e = some (e, key_fetch)
first_trouble (some t) e = some t

abbrev pub changed : (Collected → Collected) → Result Collected → Result Collected
changed f (ok c) = ok (f c)
changed f (raised e) = raised e

module _ {S : Type 0} where
  abbrev pub add_event : SecurityEvent → Batch S → Batch S
  add_event event b = record b {
    ended = changed (λ c. record c { events = event ∷ c.events }) b.ended;
  }

  abbrev pub add_refused : String → FailureReason → Batch S → Batch S
  add_refused jti reason b = record b {
    ended =
        changed (λ c. record c { refused = (record { jti = jti; reason = reason }) ∷ c.refused })
          b.ended;
  }

  abbrev pub add_unjudged : String → Batch S → Batch S
  add_unjudged jti b = record b {
    ended = changed (λ c. record c { unjudged = jti ∷ c.unjudged }) b.ended;
  }

  -- the loop ends here: the rest is unjudged
  abbrev pub stop : Core → S → List String → Trouble → Batch S
  stop core s keys trouble = record {
    core = core;
    store = s;
    ended = ok (record { events = []; refused = []; unjudged = keys; trouble = trouble });
  }

  -- an exception leaves the poll
  abbrev pub escape : Core → S → Failure → Batch S
  escape core s e = record { core = core; store = s; ended = raised e }

module _ {S : Type 0} (next : Core → S → Trouble → Batch S) (core : Core) where
  -- what the loop does with what `_record` raised
  unfoldable pub after_failure : String → S → Failure → Batch S
  after_failure jti s (refusal reason) = add_refused jti reason (next core s none)
  after_failure jti s (network message) =
      add_unjudged jti (next core s (some (network message, replay_store)))
  after_failure jti s (network_from cause) =
      add_unjudged jti (next core s (some (network_from cause, replay_store)))
  after_failure jti s e = escape core s e

  unfoldable pub after_record : String → S → Result SecurityEvent → Batch S
  unfolding after_failure
  after_record jti s (ok event) = add_event event (next core s none)
  after_record jti s (raised e) = after_failure jti s e

  -- a token that passed steps 1 to 8
  unfoldable pub after_judgement : Asks S → String → SecurityEvent → S → Trouble → Batch S
  unfolding after_record
  after_judgement asks jti event s (some trouble) = add_unjudged jti (next core s (some trouble))
  after_judgement asks jti event s none =
      let (s', answer) = asks event.jti s in after_record jti s' (settle event answer)

module _ (u : Setup) {S : Type 0} (asks : Asks S) where
  unfoldable pub after_judge :
      (Core → S → Trouble → Batch S)
      → Entry
      → List String
      → S
      → Trouble
      → Core × Result SecurityEvent
      → Batch S
  unfolding after_judgement
  after_judge next e keys s trouble (core, ok event) =
      after_judgement next core asks e.jti event s trouble
  after_judge next e keys s trouble (core, raised (refusal reason)) =
      add_refused e.jti reason (next core s trouble)
  after_judge next e keys s trouble (core, raised failure) =
      stop core s keys (first_trouble trouble failure)

  unfoldable pub judge_entry :
      (Core → S → Trouble → Batch S) → Entry → List String → Core → S → Trouble → Value → Batch S
  unfolding after_judge
  judge_entry next e keys core s trouble (str token) =
      after_judge next e keys s trouble (judge_set u e.world token (some e.jti) core)
  judge_entry next e keys core s trouble _ = add_refused e.jti malformed (next core s trouble)

  -- the loop over the pairs
  unfoldable pub poll_sets : List Entry → Core → S → Trouble → Batch S
  unfolding judge_entry
  poll_sets [] core s trouble = stop core s [] trouble
  poll_sets (e ∷ es) core s trouble =
      judge_entry (poll_sets es) e (keys_of (e ∷ es)) core s trouble e.set

-- _finish_poll: the error that the result carries, and the telemetry event that is emitted
unfoldable pub finish_poll : Collected → Option Failure × Option (ℕ × Category)
finish_poll c = elim c.unjudged [
  | [] ↦ (none, none)
  | jti ∷ jtis ↦ elim c.trouble [
    | none ↦ (none, none)
    | some (failure, category) ↦ (some failure, some (length (jti ∷ jtis), category))
  ]
]
