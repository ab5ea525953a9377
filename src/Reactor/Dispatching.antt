-- ===== src/Reactor/Dispatching.antt =====
-- src/axiam_sdk/amqp/_reactor.py: a reactor's configuration, and one delivery from its check to its
-- answer. Times of the event loop are milliseconds. The handler's end, the readings of the clocks and
-- the nonce and time of a reply are arguments.
pub mod Answers
pub mod Once
use axiam_python_sdk.Base.{
  ℕ, suc, ◌+◌, ◌-◌, ◌*◌, ◌/◌, ◌^◌, min, max, String, ◌==◌, Bool, true, false, ◌&&◌, ◌||◌, not,
  Option, none, some, List, [], ◌∷◌, if◌then◌else◌, leb, ltb,
}
use axiam_python_sdk.Base.Int.{ℤ, pos, negsuc, pos_part}
use axiam_python_sdk.Dict.{Dict}
use axiam_python_sdk.Json.{Value, obj, Fields}
use axiam_python_sdk.Text.{is_blank}
use axiam_python_sdk.Runtime.{Runtime, Bytes}
use axiam_python_sdk.Amqp.Replay.{NonceStore, check_and_record}
use axiam_python_sdk.Reactor.{ReactorEventSpec, event_spec, reactor_queue_name}
use axiam_python_sdk.Reactor.Protocol.{
  EventRejection, malformed, key_version_too_old, bad_signature, stale, ReactorEvent, Verdict,
  verified, rejected, verify_event, Reply, build_reactor_reply, sign_reactor_reply,
  reactor_reply_bytes, require_mfa_allowed,
}

pub data ReactorMode : Type 0 where
  intercept listen : ReactorMode

-- What a handler decided.
pub data Kind : Type 0 where
  allow deny mutate abstain : Kind

pub record ReactorDecision : Type 0 where
  pub kind : Kind
  pub reason : Option String
  pub patch : Option (Dict String)
  pub require_mfa : Bool

-- ReactorDecision(kind)
abbrev pub decision_of : Kind → ReactorDecision
decision_of kind = record { kind = kind; reason = none; patch = none; require_mfa = false }

-- require_step_up
abbrev pub require_step_up : ReactorDecision
require_step_up = record (decision_of allow) { require_mfa = true }

-- deny
abbrev pub deny_because : Option String → ReactorDecision
deny_because reason = record (decision_of deny) { reason = reason }

-- mutate
abbrev pub mutate_with : Dict String → ReactorDecision
mutate_with patch = record (decision_of mutate) { patch = some patch }

pub record ReactorConfig : Type 0 where
  pub tenant_id : String
  pub reactor_id : String
  pub signing_key : Bytes
  -- none for a text that is neither mode
  pub mode : Option ReactorMode
  pub queue : Option String
  pub skew : ℕ

-- The ValueError of a configuration.
pub data ConfigError : Type 0 where
  no_tenant no_queue no_key bad_mode : ConfigError

-- not text, for a text that may be None
abbrev pub is_missing : Option String → Bool
is_missing none = true
is_missing (some s) = is_blank s

abbrev pub no_bytes : Bytes → Bool
no_bytes [] = true
no_bytes (b ∷ bs) = false

-- ReactorConfig.__post_init__: none where it accepts
unfoldable pub check_config : ReactorConfig → Option ConfigError
check_config c =
    if is_blank c.tenant_id
    then some no_tenant
    else if is_blank c.reactor_id && is_missing c.queue
    then some no_queue
    else if no_bytes c.signing_key
    then some no_key
    else elim c.mode [ none ↦ some bad_mode | some mode ↦ none ]

-- ReactorConfig.resolved_queue
unfoldable pub resolved_queue : ReactorConfig → String
unfolding reactor_queue_name
resolved_queue c = elim c.queue [
  | none ↦ reactor_queue_name c.tenant_id c.reactor_id
  | some queue ↦ if is_blank queue then reactor_queue_name c.tenant_id c.reactor_id else queue
]

-- _registry_label
unfoldable pub registry_label : String → String
unfolding event_spec
registry_label name = elim (event_spec name) [ none ↦ "unknown_event" | some spec ↦ spec.name ]

pub record Delivery : Type 0 where
  pub body : Bytes
  pub reply_to : Option String
  pub correlation_id : Option String

-- What a dispatch is configured with, but for the nonce store, which it changes.
pub record Context : Type 0 where
  pub signing_key : Bytes
  pub tenant_id : String
  pub mode : ReactorMode
  pub skew : ℕ

-- How the handler ends within the event's window.
pub data Handled : Type 0 where
  decided : ReactorDecision → Handled
  timed_out : Handled
  failed : Handled
  cancelled : Handled

-- What one dispatch meets: the time of day and the nonce store's clock, the loop's time at the start
-- and when the reply is ready, the handler, and the nonce and rendered time of its reply.
pub record World : Type 0 where
  pub now : ℕ
  pub mono : ℕ
  pub started : ℕ
  pub ready : ℕ
  pub handler : ReactorEvent → Handled
  pub nonce : String
  pub issued_at : String

-- Why a delivery is refused.
pub data Rejection : Type 0 where
  unverified : EventRejection → Rejection
  replayed_nonce tenant_mismatch : Rejection

-- Why a decision is not published.
pub data Withheld : Type 0 where
  abstained empty_patch mfa_not_supported too_late no_reply_to : Withheld

-- A message to a reply queue: the queue, the correlation id of its property, and the body.
pub record Published : Type 0 where
  pub reply_to : String
  pub correlation_id : String
  pub body : Bytes

pub data Answer : Type 0 where
  publishes : Published → Answer
  withholds : Withheld → Answer

-- How a delivery is settled: refused with a nack without requeue, or consumed with an ack after the
-- handler ran, with its answer if it gave one. A cancelled dispatch settles nothing.
pub data Dispatched : Type 0 where
  refused : Rejection → Dispatched
  consumed : ReactorEvent → Option Answer → Dispatched
  interrupted : ReactorEvent → Dispatched

-- loop.time() >= started + event.timeout_seconds
unfoldable pub is_late : ℕ → ℕ → ℤ → Bool
is_late ready started (pos t) = leb (started + t) ready
is_late ready started (negsuc t) = leb started (ready + suc t)

abbrev pub kind_text : Kind → String
kind_text allow = "allow"
kind_text deny = "deny"
kind_text mutate = "mutate"
kind_text abstain = "abstain"

-- decision.patch or {}
abbrev pub patch_or_empty : Option (Dict String) → Dict String
patch_or_empty none = []
patch_or_empty (some patch) = patch

-- the reason and the patch that a reply carries
abbrev pub reply_reason : ReactorDecision → Option String
reply_reason d = elim d.kind [ deny ↦ d.reason | _ ↦ none ]

abbrev pub reply_patch : ReactorDecision → Option (Dict String)
reply_patch d = elim d.kind [ mutate ↦ some (patch_or_empty d.patch) | _ ↦ none ]

-- decision.kind == "mutate" and not (decision.patch or {})
abbrev pub no_fields : Dict String → Bool
no_fields [] = true
no_fields (f ∷ fs) = false

abbrev pub mutates_nothing : ReactorDecision → Bool
mutates_nothing d = elim d.kind [ mutate ↦ no_fields (patch_or_empty d.patch) | _ ↦ false ]

abbrev pub abstains : Kind → Bool
abstains abstain = true
abstains _ = false

module _ (rt : Runtime) (ctx : Context) where
  -- the signed body of the reply for a decision
  unfoldable pub reply_body : World → ReactorEvent → ReactorDecision → Bytes
  unfolding build_reactor_reply sign_reactor_reply reactor_reply_bytes
  reply_body w e d = reactor_reply_bytes rt (
      sign_reactor_reply rt ctx.signing_key (
        build_reactor_reply (record {
          correlation_id = e.correlation_id;
          tenant_id = e.tenant_id;
          event = e.event;
          decision = kind_text d.kind;
          reason = reply_reason d;
          patch = reply_patch d;
          require_mfa = d.require_mfa;
          nonce = w.nonce;
          issued_at = w.issued_at;
        })))

  -- delivery.correlation_id or event.correlation_id
  abbrev pub property_correlation : Option String → String → String
  property_correlation none own = own
  property_correlation (some id) own = if is_blank id then own else id

  abbrev pub send_to : World → Delivery → ReactorEvent → ReactorDecision → Option String → Answer
  send_to w delivery e d none = withholds no_reply_to
  send_to w delivery e d (some queue) =
      if is_blank queue
      then withholds no_reply_to
      else publishes (record {
        reply_to = queue;
        correlation_id = property_correlation delivery.correlation_id e.correlation_id;
        body = reply_body w e d;
      })

  -- _publish_answer; a failing publication changes nothing here
  unfoldable pub publish_answer : World → Delivery → ReactorEvent → ReactorDecision → Answer
  unfolding require_mfa_allowed is_late reply_body
  publish_answer w delivery e d =
      if abstains d.kind
      then withholds abstained
      else if mutates_nothing d
      then withholds empty_patch
      else if d.require_mfa && not (require_mfa_allowed e.event)
      then withholds mfa_not_supported
      else if is_late w.ready w.started e.timeout_ms
      then withholds too_late
      else send_to w delivery e d delivery.reply_to

  -- what follows the handler
  unfoldable pub after_handler : World → Delivery → ReactorEvent → Handled → Dispatched
  unfolding publish_answer
  after_handler w delivery e cancelled = interrupted e
  after_handler w delivery e timed_out = consumed e none
  after_handler w delivery e failed = consumed e none
  after_handler w delivery e (decided d) = elim ctx.mode [
    | listen ↦ consumed e none
    | intercept ↦ consumed e (some (publish_answer w delivery e d))
  ]

  -- the nonce, the tenant and the handler
  unfoldable pub dispatch_event :
      World → Delivery → ReactorEvent → NonceStore → NonceStore × Dispatched
  unfolding check_and_record after_handler
  dispatch_event w delivery e s =
      let (s, fresh) = check_and_record e.nonce w.mono s in
      (
        s,
        if not fresh
            then refused replayed_nonce
            else if not (e.tenant_id == ctx.tenant_id)
            then refused tenant_mismatch
            else after_handler w delivery e (w.handler e),
      )

  abbrev pub after_verdict : World → Delivery → NonceStore → Verdict → NonceStore × Dispatched
  after_verdict w delivery s (rejected reason) = (s, refused (unverified reason))
  after_verdict w delivery s (verified e) = dispatch_event w delivery e s

  abbrev pub after_parse : World → Delivery → NonceStore → Option Value → NonceStore × Dispatched
  after_parse w delivery s (some (obj body)) =
      after_verdict w delivery s (verify_event rt body ctx.signing_key w.now ctx.skew)
  after_parse w delivery s _ = (s, refused (unverified malformed))

  -- dispatch_reactor_delivery
  unfoldable pub dispatch_reactor_delivery : World → Delivery → NonceStore → NonceStore × Dispatched
  unfolding verify_event dispatch_event
  dispatch_reactor_delivery w delivery s = after_parse w delivery s (rt.loads delivery.body)

  -- the loop of _run_session, each dispatch in the order in which it asks the nonce store
  unfoldable pub dispatch_all : List (World × Delivery) → NonceStore → NonceStore
  unfolding dispatch_reactor_delivery
  dispatch_all [] s = s
  dispatch_all ((w, delivery) ∷ deliveries) s =
      dispatch_all deliveries (dispatch_reactor_delivery w delivery s).0

-- The event that the handler was called with.
abbrev pub handled : Dispatched → Option ReactorEvent
handled (refused reason) = none
handled (consumed e answer) = some e
handled (interrupted e) = some e

abbrev pub reconnect_base_delay : ℕ
reconnect_base_delay = 200

abbrev pub reconnect_max_delay : ℕ
reconnect_max_delay = 5000

-- _reconnect_delay in milliseconds, with the jitter draw in thousandths
unfoldable pub reconnect_delay : ℕ → ℤ → ℕ
reconnect_delay attempt fraction =
    let attempt = max attempt 1 in
    let backoff =
      if ltb attempt 32
      then min (reconnect_base_delay * 2 ^ (attempt - 1)) reconnect_max_delay
      else reconnect_max_delay in
    backoff * min (pos_part fraction) 1000 / 1000
