-- ===== src/Tests/Reactor.antt =====
-- A reactor's dispatch on concrete deliveries.
use axiam_python_sdk.Base.{
  ℕ, ◌≡◌, ◌≢◌, refl, Option, none, some, [], ◌∷◌, arith, if◌then◌else◌, eqb,
}
use axiam_python_sdk.Base.Int.{pos}
use axiam_python_sdk.Json.{Value, obj, str, assign}
use axiam_python_sdk.Runtime.{Runtime, Bytes}
use axiam_python_sdk.Amqp.Replay.{NonceStore, new_store}
use axiam_python_sdk.Reactor.Protocol.{ReactorEvent}
use axiam_python_sdk.Reactor.Dispatching.{
  intercept, allow, decision_of, mutate_with, require_step_up, Delivery, Context, decided, World,
  Published, consumed, withholds, mfa_not_supported, dispatch_reactor_delivery, reply_body,
  reconnect_delay,
}
use axiam_python_sdk.Reactor.Dispatching.Once.{handled_once}
use axiam_python_sdk.Tests.Setting.{runtime}
use axiam_python_sdk.Tests.Hooks.{delivered, decoded}

-- two bodies that differ in their nonce
abbrev load_event : Bytes → Option Value
load_event [] = none
load_event (b ∷ bs) =
    some (obj (if eqb b 1 then delivered else assign "nonce" (str "other") delivered))

abbrev reactor_runtime : Runtime
reactor_runtime = record runtime { loads = load_event }

abbrev context : Context
context = record { signing_key = 1 ∷ []; tenant_id = "t"; mode = intercept; skew = 300 }

abbrev world : ℕ → World
world mono = record {
  now = 1010;
  mono = mono;
  started = 50;
  ready = 60;
  handler = λ e. decided (mutate_with (("ext.a", "1") ∷ []));
  nonce = "m";
  issued_at = "now";
}

abbrev delivery : ℕ → Delivery
delivery b = record { body = b ∷ []; reply_to = some "replies"; correlation_id = some "" }

abbrev message : Published
message = record {
  reply_to = "replies";
  correlation_id = "c";
  body = reply_body reactor_runtime context (world 7) decoded (mutate_with (("ext.a", "1") ∷ []));
}

abbrev other : ReactorEvent
other = record decoded { nonce = "other" }

handled_once_example : other.nonce ≢ decoded.nonce
unfolding dispatch_reactor_delivery axiam_python_sdk.Json.get
    axiam_python_sdk.Reactor.Protocol.signed_by axiam_python_sdk.Reactor.Protocol.mac_of_body
    axiam_python_sdk.Reactor.Protocol.canonical_event_bytes axiam_python_sdk.Reactor.Protocol.mac_is
    axiam_python_sdk.Amqp.Hmac.compare_digest axiam_python_sdk.Reactor.Protocol.read_event
    axiam_python_sdk.Reactor.Protocol.in_window axiam_python_sdk.Amqp.Replay.parse_rfc3339
    axiam_python_sdk.Reactor.Protocol.is_fresh axiam_python_sdk.Dict.lookup
    axiam_python_sdk.Expiring.forget axiam_python_sdk.Dict.keep assign
    axiam_python_sdk.Reactor.Dispatching.dispatch_all axiam_python_sdk.Dict.put
handled_once_example =
    handled_once reactor_runtime context (world 7) (delivery 1) (new_store 600) decoded
      ((world 8, delivery 1) ∷ []) (world 9) (delivery 2) other tt (omega arith, tt) (omega arith)
      refl refl

-- require_mfa on an event that is not login.post_auth
dispatch_without_mfa :
    (dispatch_reactor_delivery reactor_runtime context
      (record (world 7) { handler = λ e. decided require_step_up })
      (delivery 1)
      (new_store 600)).1
    ≡ consumed decoded (some (withholds mfa_not_supported))
unfolding dispatch_reactor_delivery axiam_python_sdk.Json.get
    axiam_python_sdk.Reactor.Protocol.signed_by axiam_python_sdk.Reactor.Protocol.mac_of_body
    axiam_python_sdk.Reactor.Protocol.canonical_event_bytes axiam_python_sdk.Reactor.Protocol.mac_is
    axiam_python_sdk.Amqp.Hmac.compare_digest axiam_python_sdk.Reactor.Protocol.read_event
    axiam_python_sdk.Reactor.Protocol.in_window axiam_python_sdk.Amqp.Replay.parse_rfc3339
    axiam_python_sdk.Reactor.Protocol.is_fresh axiam_python_sdk.Dict.lookup
    axiam_python_sdk.Expiring.forget axiam_python_sdk.Dict.keep
dispatch_without_mfa = refl

reconnect_delay_grows : reconnect_delay 3 (pos 500) ≡ 400
unfolding reconnect_delay
reconnect_delay_grows = refl
