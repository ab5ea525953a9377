-- ===== src/Webhook.antt =====
-- src/axiam_sdk/webhook/_verify.py: the check of a webhook delivery's signature header. The clock,
-- the tolerance and the header's `t` are compared in microseconds.
pub mod Sound
use axiam_python_sdk.Base.{
  ℕ, ◌+◌, ◌*◌, String, ◌==◌, Bool, true, false, ◌||◌, not, Option, none, some, List, [], ◌∷◌, ◌++◌,
  if◌then◌else◌, leb,
}
use axiam_python_sdk.Base.Int.{ℤ, pos, negsuc, ◌==ℤ◌, dist}
use axiam_python_sdk.Text.{strip, split, partition}
use axiam_python_sdk.Runtime.{Runtime, Bytes}
use axiam_python_sdk.Amqp.Hmac.{mac_matches}

-- The reasons of WebhookVerifyError.
pub data VerifyError : Type 0 where
  duplicate_t missing_t missing_v1 non_numeric_t : VerifyError
  malformed_timestamp timestamp_mismatch signature_mismatch outside_tolerance : VerifyError

pub data Checked {ℓ} (A : Type ℓ) : Type ℓ where
  passed : A → Checked A
  failed : VerifyError → Checked A

-- What comes after a step; a failure ends the row.
infixl 5 ◌>>=◌ ◌>>◌
abbrev pub ◌>>=◌ {κ ℓ} : {S : Type κ} {T : Type ℓ} → Checked S → (S → Checked T) → Checked T
failed failure >>= then_do = failed failure
passed value >>= then_do = then_do value

abbrev pub ◌>>◌ {ℓ} : {T : Type ℓ} → Checked (Unit {0}) → Checked T → Checked T
first >> second = first >>= λ _. second

-- `if not test: raise WebhookVerifyError(reason)`
abbrev pub require : Bool → VerifyError → Checked (Unit {0})
require true reason = passed tt
require false reason = failed reason

-- A value that must be there: none raises.
abbrev pub need {ℓ} : {A : Type ℓ} → Option A → VerifyError → Checked A
need none reason = failed reason
need (some a) reason = passed a

pub record WebhookEvent : Type 0 where
  pub event_type : Option String
  pub delivery_id : Option String
  pub body : Bytes
  pub timestamp : ℤ

-- What the loop over the header's parts has read.
pub record Header : Type 0 where
  pub timestamp_raw : Option String
  pub v1_values : List String

-- `t` twice raises
abbrev pub note_timestamp : Header → String → Option String → Checked Header
note_timestamp h value none = passed (record h { timestamp_raw = some value })
note_timestamp h value (some _) = failed duplicate_t

unfoldable pub note_pair : Header → String → String → Checked Header
note_pair h key value =
    if key == "t"
    then note_timestamp h value h.timestamp_raw
    else if key == "v1"
    then passed (record h { v1_values = h.v1_values ++ (value ∷ []) })
    else passed h

-- A part that is empty or has no `=` is skipped.
abbrev pub note_part : Header → Option (String × String) → Checked Header
note_part h none = passed h
note_part h (some (key, value)) = note_pair h (strip key) (strip value)

unfoldable pub scan : List String → Header → Checked Header
scan [] h = passed h
scan (part ∷ parts) h = note_part h (partition b'=' (strip part)) >>= scan parts

abbrev pub some_value : List String → Option (List String)
some_value [] = none
some_value (v ∷ vs) = some (v ∷ vs)

module _ (rt : Runtime) where
  -- _parse_signature_header
  unfoldable pub parse_signature_header : String → Checked (ℤ × List String)
  unfolding scan
  parse_signature_header header = do
    h ← scan (split b',' header) (record { timestamp_raw = none; v1_values = [] })
    raw ← need h.timestamp_raw missing_t
    candidates ← need (some_value h.v1_values) missing_v1
    timestamp ← need (rt.to_int raw) non_numeric_t
    passed (timestamp, candidates)

  -- the X-Axiam-Timestamp header, where the caller passes it
  unfoldable pub check_timestamp_header : ℤ → Option String → Checked (Unit {0})
  check_timestamp_header timestamp none = passed tt
  check_timestamp_header timestamp (some header) = do
    separate ← need (rt.to_int (strip header)) malformed_timestamp
    require (separate ==ℤ timestamp) timestamp_mismatch

  -- the loop over the candidates, which does not stop at a match
  unfoldable pub matches : Bytes → Bytes → List String → Bool → Bool
  matches secret payload [] matched = matched
  matches secret payload (candidate ∷ candidates) matched =
      matches secret payload candidates
        (mac_matches rt secret payload (rt.from_hex candidate) || matched)

  unfoldable pub signed_payload : ℤ → Bytes → Bytes
  signed_payload timestamp body = rt.decimal timestamp ++ (b'.' ∷ body)

-- seconds in microseconds
abbrev pub micros : ℤ → ℤ
micros (pos n) = pos (n * 1000000)
micros (negsuc n) = negsuc (n * 1000000 + 999999)

-- The arguments of one call.
pub record Delivery : Type 0 where
  pub signature_header : String
  pub body : Bytes
  pub tolerance : ℕ
  pub now : ℕ
  pub timestamp_header : Option String
  pub event_type : Option String
  pub delivery_id : Option String

module _ (rt : Runtime) where
  unfoldable pub verify_webhook : Bytes → Delivery → Checked WebhookEvent
  verify_webhook secret d = do
    header ← parse_signature_header rt d.signature_header
    check_timestamp_header rt header.0 d.timestamp_header
    require (matches rt secret (signed_payload rt header.0 d.body) header.1 false)
        signature_mismatch
    require (leb (dist d.now (micros header.0)) d.tolerance) outside_tolerance
    passed (record {
      event_type = d.event_type;
      delivery_id = d.delivery_id;
      body = d.body;
      timestamp = header.0;
    })
