-- ===== src/Ssf.antt =====
-- src/axiam_sdk/ssf/_receiver.py: the receiver of Security Event Tokens. This module holds the
-- verdicts, the failures that an operation may raise, and what a verified token carries.
pub mod Parse
pub mod Keys
pub mod KeyLookup
pub mod Judge
pub mod Store
pub mod Verify
pub mod Poll
pub mod Polling
use axiam_python_sdk.Base.{ℕ, String, Bool, true, false, Option, none, some, List, []}
use axiam_python_sdk.Json.{Value, str, Fields, end, field}

pub data FailureReason : Type 0 where
  malformed invalid_type invalid_key invalid_issuer invalid_audience : FailureReason
  invalid_request replayed : FailureReason

-- SetFailureReason's value
unfoldable pub value_of : FailureReason → String
value_of malformed = "malformed"
value_of invalid_type = "invalid_type"
value_of invalid_key = "invalid_key"
value_of invalid_issuer = "invalid_issuer"
value_of invalid_audience = "invalid_audience"
value_of invalid_request = "invalid_request"
value_of replayed = "replayed"

unfoldable pub push_error_code : FailureReason → String
unfolding value_of
push_error_code malformed = "invalid_request"
push_error_code invalid_type = "invalid_request"
push_error_code replayed = "invalid_request"
push_error_code reason = value_of reason

-- What an operation raises: the refusal of a SET, the SDK's three errors, any other exception, and
-- the NetworkError whose cause is another failure.
pub data Failure : Type 0 where
  refusal : FailureReason → Failure
  network auth authz other : String → Failure
  network_from : Failure → Failure

pub data Result {ℓ} (A : Type ℓ) : Type ℓ where
  ok : A → Result A
  raised : Failure → Result A

-- What comes after a step; a failure ends the row.
infixl 5 ◌>>=◌ ◌>>◌
abbrev pub ◌>>=◌ {κ ℓ} : {S : Type κ} {T : Type ℓ} → Result S → (S → Result T) → Result T
raised failure >>= then_do = raised failure
ok value >>= then_do = then_do value

abbrev pub ◌>>◌ {ℓ} : {T : Type ℓ} → Result (Unit {0}) → Result T → Result T
first >> second = first >>= λ _. second

-- `if not test: raise SetVerificationError(reason)`
abbrev pub require : Bool → FailureReason → Result (Unit {0})
require true reason = ok tt
require false reason = raised (refusal reason)

-- A value that must be there: none raises.
abbrev pub need {ℓ} : {A : Type ℓ} → Option A → FailureReason → Result A
need none reason = raised (refusal reason)
need (some a) reason = ok a

pub record SecurityEvent : Type 0 where
  pub jti : String
  pub iat : Value
  pub iss : String
  pub aud : Value
  pub txn : Option String
  pub event_type : String
  pub event : Fields
  pub sub_id : Fields

pub record SetErr : Type 0 where
  pub err : String
  pub description : Option String

unfoldable pub from_reason : FailureReason → SetErr
unfolding push_error_code
from_reason reason = record { err = push_error_code reason; description = none }

unfoldable pub to_wire : SetErr → Fields
to_wire e = elim e.description [
  | none ↦ field "err" (str e.err) end
  | some text ↦ field "err" (str e.err) (field "description" (str text) end)
]

pub record RefusedSet : Type 0 where
  pub jti : String
  pub reason : FailureReason
