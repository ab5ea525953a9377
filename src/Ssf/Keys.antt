-- ===== src/Ssf/Keys.antt =====
-- The JWKS cache of src/axiam_sdk/ssf/_receiver.py: the state of _ReceiverCore, when it is fetched
-- again, and how a response is read. Times are seconds.
use axiam_python_sdk.Base.{
  ℕ, ◌-◌, String, Bool, true, false, ◌&&◌, ◌||◌, Option, none, some, [], leb, if◌then◌else◌,
}
use axiam_python_sdk.Text.{lower_equals}
use axiam_python_sdk.Dict.{Dict, put}
use axiam_python_sdk.Json.{Value, str, arr, obj, Items, nil, cons, Fields, get}
use axiam_python_sdk.Runtime.{Jose, Loaded, usable_key, unusable_key, broken_key}
use axiam_python_sdk.Ssf.{other, network, Result, ok, raised, ◌>>=◌}

abbrev pub jwks_lifespan : ℕ
jwks_lifespan = 300

abbrev pub forced_refetch_min_interval : ℕ
forced_refetch_min_interval = 60

-- An HTTP response: its status, and its body where that is JSON.
pub record Response : Type 0 where
  pub status : ℕ
  pub body : Option Value

-- The scheme and host of a URL; none for httpx.InvalidURL.
pub record Url : Type 0 where
  pub scheme : String
  pub host : String

pub record Core : Type 0 where
  pub issuer : String
  pub jwks_uri : Option String
  pub discovery_url : Option String
  pub keys : Option (Dict Fields)
  pub fetched_at : ℕ
  pub last_forced : Option ℕ

unfoldable pub needs_fetch : ℕ → Core → Bool
needs_fetch now core = elim core.keys [
  | none ↦ true
  | some keys ↦ leb jwks_lifespan (now - core.fetched_at)
]

unfoldable pub may_force : ℕ → Core → Bool
may_force now core = elim core.last_forced [
  | none ↦ true
  | some last ↦ leb forced_refetch_min_interval (now - last)
]

unfoldable pub note_failed_fetch : ℕ → Core → Core
note_failed_fetch now core = record core { last_forced = some now }

unfoldable pub is_loopback : String → Bool
is_loopback host =
    lower_equals host "localhost" || lower_equals host "127.0.0.1" || lower_equals host "::1"

abbrev pub is_success : Response → Bool
is_success r = leb 200 r.status && leb r.status 299

abbrev pub as_text : Option Value → Option String
as_text (some (str s)) = some s
as_text _ = none

-- The body of a successful response, where it is a JSON object.
abbrev pub document : Response → Option Fields
document r = elim r.body [ some (obj d) ↦ some d | _ ↦ none ]

abbrev pub fails {ℓ} : {A : Type ℓ} → String → Result A
fails message = raised (network message)

abbrev pub or_fail {ℓ} : {A : Type ℓ} → Option A → String → Result A
or_fail none message = fails message
or_fail (some a) message = ok a

abbrev pub when_ok : Bool → String → Result (Unit {0})
when_ok true message = ok tt
when_ok false message = fails message

module _ (jose : Jose) where
  abbrev pub put_loaded : String → Fields → Dict Fields → Loaded → Result (Dict Fields)
  put_loaded kid entry keys usable_key = ok (put kid entry keys)
  put_loaded kid entry keys unusable_key = ok keys
  put_loaded kid entry keys (broken_key message) = raised (other message)

  -- one entry of `keys`
  unfoldable pub add_key : Value → Dict Fields → Result (Dict Fields)
  add_key (obj entry) keys = elim (as_text (get "kid" entry)) [
    | none ↦ ok keys
    | some kid ↦ put_loaded kid entry keys (jose.pyjwk entry)
  ]
  add_key _ keys = ok keys

  unfoldable pub collect_keys : Items → Dict Fields → Result (Dict Fields)
  unfolding add_key
  collect_keys nil keys = ok keys
  collect_keys (cons entry entries) keys = add_key entry keys >>= collect_keys entries

  abbrev pub key_entries : Option Fields → Option Items
  key_entries none = none
  key_entries (some d) = elim (get "keys" d) [ some (arr entries) ↦ some entries | _ ↦ none ]

  -- the keys of a JWKS response
  unfoldable pub read_jwks : Response → Result (Dict Fields)
  unfolding collect_keys
  read_jwks r =
      if is_success r
      then (do
        entries ← or_fail (key_entries (document r)) "the JWKS has no keys array"
        collect_keys entries [])
      else fails "the JWKS fetch failed"
