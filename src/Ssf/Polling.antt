-- ===== src/Ssf/Polling.antt =====
-- The construction of a receiver and the whole of SsfReceiver.poll in
-- src/axiam_sdk/ssf/_receiver.py: the request with its retry, the reply, and the batch. The answers
-- to the attempts, the path escape and the mapping of a failed response to an error are arguments.
pub mod Outcome
use Prim.Native.Char.{code}
use Prim.Native.String.{◌++◌}
use axiam_python_sdk.Base.{
  ℕ, suc, ◌+◌, ◌*◌, String, Bool, true, false, ◌||◌, ◌&&◌, eqb, ◌⊎◌, inl, inr, Option, none, some,
  List, [], ◌∷◌, if◌then◌else◌, ltb, is_some,
}
use axiam_python_sdk.Base.Int.{ℤ}
use axiam_python_sdk.Dict.{Dict}
use axiam_python_sdk.Text.{is_blank}
use axiam_python_sdk.Json.{
  Value, obj, arr, str, int, bool, Fields, end, field, Items, nil, cons, get,
}
use axiam_python_sdk.Retry.{
  Error, Attempt, value, failure, Event, Policy, retry, status_is_retryable,
}
use axiam_python_sdk.Ssf.{Failure, network, auth, other, Result, ok, raised, SetErr, to_wire}
use axiam_python_sdk.Ssf.Keys.{Response, Core, is_success}
use axiam_python_sdk.Ssf.Store.{Asks}
use axiam_python_sdk.Ssf.Verify.{Setup, World}
use axiam_python_sdk.Ssf.Poll.{Entry, Category, Collected, Batch, poll_sets, finish_poll}

-- seven days, in seconds
abbrev pub min_replay_window : ℕ
min_replay_window = 7 * 24 * 60 * 60

-- The ValidationError of a configuration, by its field.
pub data ConfigError : Type 0 where
  replay_window issuer jwks_uri : ConfigError

abbrev pub same_presence : Option String → Option String → Bool
same_presence none none = true
same_presence (some a) (some b) = true
same_presence _ _ = false

-- _ReceiverCore.__init__
unfoldable pub new_core : String → String → Option String → Option String → ℕ → Core ⊎ ConfigError
new_core name audience uri discovery window =
    if ltb window min_replay_window
    then inr replay_window
    else if is_blank name || is_blank audience
    then inr issuer
    else if same_presence uri discovery
    then inr jwks_uri
    else inl (record {
      issuer = name;
      jwks_uri = uri;
      discovery_url = discovery;
      keys = none;
      fetched_at = 0;
      last_forced = none;
    })

-- text.rstrip("/")
unfoldable pub rstrip_slash : String → String
rstrip_slash String.[] = String.[]
rstrip_slash (String.◌∷◌ c s) =
    let rest = rstrip_slash s in
    if is_blank rest && eqb (code c) b'/' then String.[] else String.◌∷◌ c rest

-- poll_url, with urllib's quote
unfoldable pub poll_url : (String → String) → String → String → String
unfolding rstrip_slash
poll_url quote base_url stream_id = rstrip_slash base_url ++ ("/ssf/v1/poll/" ++ quote stream_id)

-- The arguments of a poll.
pub record PollArguments : Type 0 where
  pub max_events : Option ℤ
  pub return_immediately : Option Bool
  pub ack : Option (List String)
  pub set_errs : Option (Dict SetErr)

abbrev pub texts : List String → Items
texts [] = nil
texts (s ∷ ss) = cons (str s) (texts ss)

abbrev pub wire_errs : Dict SetErr → Fields
wire_errs [] = end
wire_errs ((jti, e) ∷ errs) = field jti (obj (to_wire e)) (wire_errs errs)

-- body[key] = ..., where the caller set it
abbrev pub member_if_set : {A : Type 0} → String → (A → Value) → Option A → Fields → Fields
member_if_set key wire none rest = rest
member_if_set key wire (some a) rest = field key (wire a) rest

-- poll_body
unfoldable pub poll_body : PollArguments → Fields
poll_body a = member_if_set "maxEvents" int a.max_events (
    member_if_set "returnImmediately" bool a.return_immediately (
      member_if_set "ack" (λ ack. arr (texts ack)) a.ack
        (member_if_set "setErrs" (λ errs. obj (wire_errs errs)) a.set_errs end)))

abbrev pub pairs_of : Fields → List (String × Value)
pairs_of end = []
pairs_of (field jti set d) = (jti, set) ∷ pairs_of d

-- the pairs of a `sets` that may be missing
abbrev pub sets_of : Option Value → List (String × Value)
sets_of (some (obj d)) = pairs_of d
sets_of _ = []

-- value is True
abbrev pub is_true : Option Value → Bool
is_true (some (bool true)) = true
is_true _ = false

-- poll_reply: the SETs by their keys, and moreAvailable
unfoldable pub poll_reply : Option Value → Result (List (String × Value) × Bool)
poll_reply none = raised (network "ssf.poll: the response is not JSON")
poll_reply (some (obj d)) = ok (sets_of (get "sets" d), is_true (get "moreAvailable" d))
poll_reply (some v) = raised (network "ssf.poll: the response is not a JSON object")

-- How one attempt is answered: by httpx.TransportError, or by a response.
pub data Answered : Type 0 where
  broken : String → Answered
  answered : Response → Answered

-- What a poll meets: the answers to its attempts, what a response that is not a success maps to
-- (poll_error) and what the retry sees of that error, the waits, and the world of each SET.
pub record PollWorld : Type 0 where
  pub answer : ℕ → Answered
  pub poll_error : Response → Failure
  pub seen_as : Failure → Error
  pub rand : ℕ → ℤ
  pub telemetry : Bool
  pub judged_in : ℕ → World

abbrev pub attempt_of : PollWorld → Answered → Attempt (Response ⊎ Failure)
attempt_of w (broken reason) = failure (Error.network none reason)
attempt_of w (answered r) =
    if is_success r
    then value (inl r)
    else if status_is_retryable r.status
    then failure (w.seen_as (w.poll_error r))
    else value (inr (w.poll_error r))

-- retry_sync's arguments
unfoldable pub policy : PollWorld → Policy (Response ⊎ Failure)
unfolding status_is_retryable
policy w = record {
  op = λ n. attempt_of w (w.answer n);
  rand = w.rand;
  deadline = none;
  telemetry = w.telemetry;
}

abbrev pub outcome_of : Attempt (Response ⊎ Failure) → Result Response
outcome_of (value (inl r)) = ok r
outcome_of (value (inr f)) = raised f
outcome_of (failure (Error.network hint reason)) = raised (network reason)
outcome_of (failure (Error.other reason)) = raised (other reason)

-- the pairs with the worlds in which they are judged
abbrev pub entries_from : (ℕ → World) → ℕ → List (String × Value) → List Entry
entries_from worlds n [] = []
entries_from worlds n ((jti, set) ∷ pairs) =
    (record { jti = jti; set = set; world = worlds n }) ∷ entries_from worlds (n + 1) pairs

-- SsfPollResult
pub record PollResult : Type 0 where
  pub collected : Collected
  pub more_available : Bool
  pub unjudged_error : Option Failure

-- A poll: the receiver's state after it, the attempts and waits, the SsfUnjudged event, and its end.
pub record Polled (S : Type 0) : Type 0 where
  pub core : Core
  pub store : S
  pub requests : List Event
  pub emitted : Option (ℕ × Category)
  pub ended : Result PollResult

module _ (u : Setup) {S : Type 0} (asks : Asks S) where
  abbrev pub fails_with : Core → S → List Event → Failure → Polled S
  fails_with core s requests e = record {
    core = core;
    store = s;
    requests = requests;
    emitted = none;
    ended = raised e;
  }

  -- _finish_poll
  abbrev pub finish : List Event → Bool → Core → S → Result Collected → Polled S
  finish requests more core s (raised e) = fails_with core s requests e
  finish requests more core s (ok c) =
      let (error, emitted) = finish_poll c in
      record {
        core = core;
        store = s;
        requests = requests;
        emitted = emitted;
        ended = ok (record { collected = c; more_available = more; unjudged_error = error });
      }

  abbrev pub finish_batch : List Event → Bool → Batch S → Polled S
  finish_batch requests more b = finish requests more b.core b.store b.ended

  unfoldable pub after_reply :
      PollWorld → Core → S → List Event → Result (List (String × Value) × Bool) → Polled S
  unfolding poll_sets finish_poll
  after_reply w core s requests (raised e) = fails_with core s requests e
  after_reply w core s requests (ok (pairs, more)) =
      finish_batch requests more (poll_sets u asks (entries_from w.judged_in 0 pairs) core s none)

  unfoldable pub after_request : PollWorld → Core → S → List Event → Result Response → Polled S
  unfolding after_reply poll_reply
  after_request w core s requests (raised e) = fails_with core s requests e
  after_request w core s requests (ok r) = after_reply w core s requests (poll_reply r.body)

  -- poll, of an open client, with and without an access_token_provider
  unfoldable pub poll : PollWorld → Bool → Bool → Core → S → Polled S
  unfolding after_request policy retry
  poll w retries provider core s =
      let (outcome, requests) = retry (policy w) retries in
      if provider
      then after_request w core s requests (outcome_of outcome)
      else fails_with core s [] (auth "ssf.poll needs an access_token_provider")
