-- ===== src/Tests/Hooks.antt =====
-- The reactor registry and the router on concrete inputs.
use axiam_python_sdk.Base.Int.{pos}
use axiam_python_sdk.Reactor.Protocol.{
  ReactorEvent, build_reactor_reply, reactor_reply_signature_valid, sign_reactor_reply,
}
use axiam_python_sdk.Reactor.Protocol.Verified.{Authentic, verify_event_iff}
use axiam_python_sdk.Reactor.Protocol.Signed.{valid-sign}
use axiam_python_sdk.Tests.Setting.{runtime}
use axiam_python_sdk.Base.{none, false, ℕ, ◌≡◌, refl, true, Option, some, List, [], ◌∷◌, String}
use axiam_python_sdk.Json.{Value, str, int, obj, arr, Items, nil, cons, Fields, end, field}
use axiam_python_sdk.Reactor.{
  ReactorEventSpec, fail_open, default_failure_policy_for, closed_row, profile_fields,
  patch_field_allowed, token_pre_issue, user_pre_create,
}
use axiam_python_sdk.Reactor.Patch.{AdmitsOne, patch_field_allowed_iff}
use axiam_python_sdk.Reactor.Router.{bind, reactor_handlers, dispatch}
use axiam_python_sdk.Reactor.Router.Routes.{reactor_handlers-call}

patch_field_allowed_iff_example : (true ≡ true) × AdmitsOne profile_fields "metadata.team"
unfolding patch_field_allowed axiam_python_sdk.Reactor.admits_one axiam_python_sdk.Text.ends_with
    axiam_python_sdk.Text.longer axiam_python_sdk.Text.starts_with
patch_field_allowed_iff_example =
    (patch_field_allowed_iff (closed_row user_pre_create true profile_fields) "metadata.team").0
      refl

-- an event is its name, a decision a number, and 0 abstains
abbrev bindings : List (String × Option (String → ℕ))
bindings = ("token.pre_issue", some (λ e. 1)) ∷ ("user.pre_create", some (λ e. 2)) ∷ []

abbrev composed : String → ℕ
composed = dispatch (λ e. e) 0 (("token.pre_issue", (λ e. 1)) ∷ ("user.pre_create", (λ e. 2)) ∷ [])

reactor_handlers-call_example : composed "user.pre_create" ≡ 2
unfolding reactor_handlers axiam_python_sdk.Reactor.Router.bind_all bind
    axiam_python_sdk.Reactor.Router.check_bindable axiam_python_sdk.Reactor.event_spec
    axiam_python_sdk.Reactor.find_spec axiam_python_sdk.Reactor.event_registry
    axiam_python_sdk.Dict.lookup axiam_python_sdk.Dict.put axiam_python_sdk.Reactor.Router.handler
reactor_handlers-call_example =
    reactor_handlers-call (λ e. e) 0 bindings composed "user.pre_create" refl

-- signed with the key 1
abbrev pub delivered : Fields
delivered = field "tenant_id" (str "t") (
    field "event" (str "token.pre_issue") (
      field "correlation_id" (str "c") (
        field "payload" (obj end) (
          field "timeout_ms" (int (pos 500)) (
            field "key_version" (int (pos 2)) (
              field "nonce" (str "n") (
                field "issued_at" (str "now") (field "hmac_signature" (str "\u{1}\u{3}") end))))))))

abbrev pub decoded : ReactorEvent
decoded = record {
  tenant_id = "t";
  event = "token.pre_issue";
  correlation_id = "c";
  payload = end;
  timeout_ms = pos 500;
  key_version = pos 2;
  nonce = "n";
  issued_at = "now";
}

verify_event_iff_example : Authentic runtime delivered (1 ∷ []) 1010 300 decoded
unfolding axiam_python_sdk.Reactor.Protocol.verify_event axiam_python_sdk.Json.get
    axiam_python_sdk.Reactor.Protocol.signed_by axiam_python_sdk.Reactor.Protocol.mac_of_body
    axiam_python_sdk.Reactor.Protocol.canonical_event_bytes axiam_python_sdk.Reactor.Protocol.mac_is
    axiam_python_sdk.Amqp.Hmac.compare_digest axiam_python_sdk.Reactor.Protocol.read_event
    axiam_python_sdk.Reactor.Protocol.in_window axiam_python_sdk.Amqp.Replay.parse_rfc3339
    axiam_python_sdk.Reactor.Protocol.is_fresh
verify_event_iff_example = (verify_event_iff runtime delivered (1 ∷ []) 1010 300 decoded).0 refl

abbrev answered : Fields
answered = build_reactor_reply (record {
  correlation_id = "c";
  tenant_id = "t";
  event = "token.pre_issue";
  decision = "mutate";
  reason = none;
  patch = some (("ext.b", "1") ∷ ("ext.a", "2") ∷ []);
  require_mfa = false;
  nonce = "m";
  issued_at = "now";
})

valid-sign_example :
    reactor_reply_signature_valid runtime (1 ∷ []) (sign_reactor_reply runtime (1 ∷ []) answered)
    ≡ true
unfolding axiam_python_sdk.Reactor.Protocol.canonical_reply_bytes
valid-sign_example = valid-sign runtime (1 ∷ []) answered refl
