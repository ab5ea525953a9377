-- ===== src/Reactor/Protocol.antt =====
-- src/axiam_sdk/amqp/_reactor_protocol.py: the check of a delivered event, and the signed reply.
-- Times are natural numbers in one unit; the rendered time of a reply and its nonce are arguments.
pub mod Verified
pub mod Signed
use Prim.Native.Char.{code}
use Prim.Native.String
use axiam_python_sdk.Base.{
  ℕ, String, ◌==◌, Bool, true, false, ◌&&◌, not, Option, none, some, List, [], ◌∷◌, if◌then◌else◌,
  leb, ltb, eqb,
}
use axiam_python_sdk.Base.Int.{ℤ, pos, ltb_ℕ, gap}
use axiam_python_sdk.Dict.{Dict}
use axiam_python_sdk.Json.{Value, null, bool, int, str, obj, Fields, end, field, get, has, assign}
use axiam_python_sdk.Runtime.{Runtime, Bytes}
use axiam_python_sdk.Amqp.Hmac.{compare_digest}
use axiam_python_sdk.Amqp.Replay.{parse_rfc3339}
use axiam_python_sdk.Reactor.{login_post_auth}

abbrev pub reactor_key_version : ℕ
reactor_key_version = 2

-- The rejections that verify_event makes.
pub data EventRejection : Type 0 where
  malformed key_version_too_old bad_signature stale : EventRejection

pub record ReactorEvent : Type 0 where
  pub tenant_id : String
  pub event : String
  pub correlation_id : String
  pub payload : Fields
  pub timeout_ms : ℤ
  pub key_version : ℤ
  pub nonce : String
  pub issued_at : String

-- The event and None, or None and the rejection.
pub data Verdict : Type 0 where
  verified : ReactorEvent → Verdict
  rejected : EventRejection → Verdict

unfoldable pub is_fresh : ℕ → ℕ → ℕ → Bool
is_fresh issued_at now skew = leb (gap now issued_at) skew

infixl 5 ◌>>=◌
abbrev ◌>>=◌ {ℓ κ} : {A : Type ℓ} {B : Type κ} → Option A → (A → Option B) → Option B
some found >>= use_it = use_it found
none >>= use_it = none

abbrev pub text_of : Option Value → Option String
text_of (some (str s)) = some s
text_of _ = none

abbrev pub int_of : Option Value → Option ℤ
int_of (some (int n)) = some n
int_of _ = none

abbrev pub object_of : Option Value → Option Fields
object_of (some (obj d)) = some d
object_of _ = none

-- the shape of a body that is signed
unfoldable pub read_event : ℤ → Fields → Option ReactorEvent
read_event key_version body = do
  tenant_id ← text_of (get "tenant_id" body)
  event ← text_of (get "event" body)
  correlation_id ← text_of (get "correlation_id" body)
  nonce ← text_of (get "nonce" body)
  issued_at ← text_of (get "issued_at" body)
  timeout_ms ← int_of (get "timeout_ms" body)
  payload ← object_of (get "payload" body)
  some (record {
    tenant_id = tenant_id;
    event = event;
    correlation_id = correlation_id;
    payload = payload;
    timeout_ms = timeout_ms;
    key_version = key_version;
    nonce = nonce;
    issued_at = issued_at;
  })

module _ (rt : Runtime) where
  -- _verify, for the decoded signature
  unfoldable pub mac_is : Bytes → Bytes → Option Bytes → Bool
  mac_is key canonical none = false
  mac_is key canonical (some received) = compare_digest received (rt.hmac key canonical)

  unfoldable pub canonical_event_bytes : Fields → Option Bytes
  canonical_event_bytes body =
      if has "hmac_signature" body
      then some (rt.dumps_utf8 (assign "hmac_signature" null body))
      else none

  unfoldable pub mac_of_body : Bytes → Option Bytes → String → Bool
  mac_of_body key none signature = false
  mac_of_body key (some canonical) signature = mac_is key canonical (rt.from_hex signature)

  -- the MAC step
  unfoldable pub signed_by : Bytes → Fields → Bool
  signed_by key body = elim (text_of (get "hmac_signature" body)) [
    | none ↦ false
    | some signature ↦ mac_of_body key (canonical_event_bytes body) signature
  ]

  -- the freshness step
  unfoldable pub in_window : ℕ → ℕ → String → Bool
  in_window now skew issued_at = elim (parse_rfc3339 rt issued_at) [
    | none ↦ false
    | some moment ↦ is_fresh moment now skew
  ]

  abbrev pub judge_fresh : ℕ → ℕ → Option ReactorEvent → Verdict
  judge_fresh now skew none = rejected malformed
  judge_fresh now skew (some e) =
      if in_window now skew e.issued_at then verified e else rejected stale

  abbrev pub judge_version : Bytes → ℕ → ℕ → Fields → Option ℤ → Verdict
  judge_version key now skew body none = rejected malformed
  judge_version key now skew body (some version) =
      if ltb_ℕ version reactor_key_version
      then rejected key_version_too_old
      else if signed_by key body
      then judge_fresh now skew (read_event version body)
      else rejected bad_signature

  unfoldable pub verify_event : Fields → Bytes → ℕ → ℕ → Verdict
  verify_event body key now skew = judge_version key now skew body (int_of (get "key_version" body))

-- a <= b, by code points
unfoldable pub text_le : String → String → Bool
text_le String.[] t = true
text_le (String.◌∷◌ c s) String.[] = false
text_le (String.◌∷◌ c s) (String.◌∷◌ d t) =
    let rest = text_le s t in if eqb (code c) (code d) then rest else ltb (code c) (code d)

unfoldable pub insert : String → String → Dict String → Dict String
unfolding text_le
insert k v [] = (k, v) ∷ []
insert k v ((j, w) ∷ d) =
    let rest = insert k v d in if text_le k j then (k, v) ∷ (j, w) ∷ d else (j, w) ∷ rest

-- {key: patch[key] for key in sorted(patch)}
unfoldable pub sorted_patch : Dict String → Fields
unfolding insert
sorted_patch patch = to_fields (sort patch)
  where
    sort : Dict String → Dict String
    sort [] = []
    sort ((k, v) ∷ d) = insert k v (sort d)

    to_fields : Dict String → Fields
    to_fields [] = end
    to_fields ((k, v) ∷ d) = field k (str v) (to_fields d)

-- What a reply answers with.
pub record Reply : Type 0 where
  pub correlation_id : String
  pub tenant_id : String
  pub event : String
  pub decision : String
  pub reason : Option String
  pub patch : Option (Dict String)
  pub require_mfa : Bool
  pub nonce : String
  pub issued_at : String

abbrev reply_tail : Reply → Fields
reply_tail r = field "key_version" (int (pos reactor_key_version)) (
    field "nonce" (str r.nonce)
      (field "issued_at" (str r.issued_at) (field "hmac_signature" null end)))

abbrev with_mfa : Bool → Fields → Fields
with_mfa true d = field "require_mfa" (bool true) d
with_mfa false d = d

abbrev with_patch : Option (Dict String) → Fields → Fields
with_patch none d = d
with_patch (some patch) d = field "patch" (obj (sorted_patch patch)) d

abbrev with_reason : Option String → Fields → Fields
with_reason none d = d
with_reason (some reason) d = field "reason" (str reason) d

unfoldable pub build_reactor_reply : Reply → Fields
build_reactor_reply r = field "correlation_id" (str r.correlation_id) (
    field "tenant_id" (str r.tenant_id) (
      field "event" (str r.event) (
        field "decision" (str r.decision)
          (with_reason r.reason (with_patch r.patch (with_mfa r.require_mfa (reply_tail r)))))))

module _ (rt : Runtime) where
  unfoldable pub canonical_reply_bytes : Fields → Bytes
  canonical_reply_bytes reply = rt.dumps_utf8 (assign "hmac_signature" null reply)

  unfoldable pub reactor_reply_bytes : Fields → Bytes
  reactor_reply_bytes reply = rt.dumps_utf8 reply

  unfoldable pub sign_reactor_reply : Bytes → Fields → Fields
  sign_reactor_reply key reply =
      assign "hmac_signature" (str (rt.hex (rt.hmac key (canonical_reply_bytes reply)))) reply

  unfoldable pub reactor_reply_signature_valid : Bytes → Fields → Bool
  reactor_reply_signature_valid key reply = elim (text_of (get "hmac_signature" reply)) [
    | none ↦ false
    | some signature ↦ mac_is rt key (canonical_reply_bytes reply) (rt.from_hex signature)
  ]

-- _require_mfa_allowed
unfoldable pub require_mfa_allowed : String → Bool
require_mfa_allowed event = event == login_post_auth
