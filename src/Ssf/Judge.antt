-- ===== src/Ssf/Judge.antt =====
-- Steps 5 to 8 of src/axiam_sdk/ssf/_receiver.py: the judgement of a parsed token under a key.
pub mod Sound
use axiam_python_sdk.Base.{
  ℕ, String, ◌==◌, Bool, true, false, ◌&&◌, ◌||◌, not, Option, none, some, if◌then◌else◌,
}
use axiam_python_sdk.Json.{
  Value, int, float, str, arr, obj, Fields, end, field, get, has, equals_text, any_text,
}
use axiam_python_sdk.Runtime.{Runtime, Bytes, Jose}
use axiam_python_sdk.Ssf.{
  Result, ok, raised, ◌>>=◌, ◌>>◌, require, need, invalid_key, invalid_issuer, invalid_audience,
  invalid_request, SecurityEvent,
}
use axiam_python_sdk.Ssf.Parse.{Parsed}

-- The `iss` and `aud` that the receiver is configured with.
pub record Config : Type 0 where
  pub issuer : String
  pub audience : String
  pub replay_window : ℕ

unfoldable pub is_issuer : String → Option Value → Bool
is_issuer issuer (some v) = equals_text v issuer
is_issuer issuer none = false

-- aud == audience, or a list with such an item
unfoldable pub names_audience : String → Option Value → Bool
names_audience audience (some (arr items)) = any_text items audience
names_audience audience (some v) = equals_text v audience
names_audience audience none = false

-- jti as a non-empty string
unfoldable pub jti_text : Option Value → Option String
jti_text (some (str jti)) = if jti == "" then none else some jti
jti_text _ = none

-- iat as an int or a float, and not a bool
unfoldable pub numeric : Option Value → Option Value
numeric (some (int n)) = some (int n)
numeric (some (float x)) = some (float x)
numeric _ = none

abbrev pub as_object : Option Value → Option Fields
as_object (some (obj d)) = some d
as_object _ = none

-- the single member of `events`
unfoldable pub single_event : Option Value → Option (String × Value)
single_event (some (obj (field event_type event end))) = some (event_type, event)
single_event _ = none

-- the key of the poll's map, where there is one, is the jti
unfoldable pub expects : Option String → String → Bool
expects none jti = true
expects (some expected) jti = expected == jti

abbrev pub txn_text : Option Value → Option String
txn_text (some (str txn)) = some txn
txn_text _ = none

-- event if isinstance(event, dict) else {}
abbrev pub event_object : Value → Fields
event_object (obj d) = d
event_object _ = end

abbrev pub value_or_null : Option Value → Value
value_or_null none = Value.null
value_or_null (some v) = v

module _ (cfg : Config) where
  -- steps 6 to 8
  unfoldable pub judge_claims : Fields → Option String → Result SecurityEvent
  judge_claims claims expected_jti = do
    require (is_issuer cfg.issuer (get "iss" claims)) invalid_issuer
    require (names_audience cfg.audience (get "aud" claims)) invalid_audience
    require (not (has "exp" claims || has "sub" claims)) invalid_request
    jti ← need (jti_text (get "jti" claims)) invalid_request
    iat ← need (numeric (get "iat" claims)) invalid_request
    sub_id ← need (as_object (get "sub_id" claims)) invalid_request
    event ← need (single_event (get "events" claims)) invalid_request
    require (expects expected_jti jti) invalid_request
    ok (record {
      jti = jti;
      iat = iat;
      iss = cfg.issuer;
      aud = value_or_null (get "aud" claims);
      txn = txn_text (get "txn" claims);
      event_type = event.0;
      event = event_object event.1;
      sub_id = sub_id;
    })

module _ (jose : Jose) (cfg : Config) where
  -- step 5
  unfoldable pub signature_ok : Parsed → Fields → Bool
  signature_ok parsed key =
      jose.is_ed25519 key && jose.verify parsed.signing_input key parsed.signature

  -- judge
  unfoldable pub judge : Parsed → Option Fields → Option String → Result SecurityEvent
  judge parsed found expected_jti = do
    key ← need found invalid_key
    require (signature_ok parsed key) invalid_key
    judge_claims cfg parsed.claims expected_jti
