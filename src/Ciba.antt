-- ===== src/Ciba.antt =====
-- src/axiam_sdk/_ciba.py and ciba_await of _client.py: what a failed poll means, the members of a
-- request, the check of a ping, and the loop that polls until a request is decided. Times are
-- milliseconds and not negative.
pub mod Schedule
pub mod Patience
pub mod Ping
use axiam_python_sdk.Base.{
  ℕ, zero, suc, ◌+◌, ◌*◌, max, String, ◌==◌, Bool, true, false, ◌&&◌, ◌||◌, not, ◌⊎◌, inl, inr,
  Option, none, some, List, [], ◌∷◌, if◌then◌else◌, ltb, leb, is_some,
}
use axiam_python_sdk.Base.Int.{ℤ}
use axiam_python_sdk.Text.{is_blank, partition, lower_equals}
use axiam_python_sdk.Json.{Value, str, int, obj, Fields, end, field, get}
use axiam_python_sdk.Runtime.{Runtime, Bytes}
use axiam_python_sdk.Amqp.Hmac.{compare_digest}

-- seconds
abbrev pub default_interval : ℕ
default_interval = 5

-- seconds
abbrev pub slow_down_increment : ℕ
slow_down_increment = 5

-- OAuthProtocolError and its two subtypes
pub data Decision : Type 0 where
  open_code denied_code expired_code : Decision

-- The errors of a poll: OAuthProtocolError with its code, NetworkError with the mark of a decisive
-- answer, and every other.
pub data Kind : Type 0 where
  protocol : Decision → String → Kind
  network : Bool → Kind
  other : String → Kind

-- an error with its retry_after_ms
pub record PollError : Type 0 where
  pub kind : Kind
  pub retry_after : Option ℕ

-- typed_poll_error, on the code of an error: the subtype is raised without a retry_after_ms
unfoldable pub typed_poll_error : String → Option ℕ → PollError
typed_poll_error code retry_after =
    if code == "access_denied"
    then record { kind = protocol denied_code code; retry_after = none }
    else if code == "expired_token"
    then record { kind = protocol expired_code code; retry_after = none }
    else record { kind = protocol open_code code; retry_after = retry_after }

abbrev pub local_expiry : PollError
local_expiry = record { kind = protocol expired_code "expired_token"; retry_after = none }

abbrev pub mark_kind : Kind → Kind
mark_kind (network terminal) = network true
mark_kind (protocol d code) = protocol d code
mark_kind (other reason) = other reason

-- mark_terminal; poll_step reads the mark of a NetworkError only
abbrev pub mark_terminal : PollError → PollError
mark_terminal e = record { kind = mark_kind e.kind; retry_after = e.retry_after }

pub data Step : Type 0 where
  pending slow_down transient terminal : Step

-- poll_step
unfoldable pub poll_step : Kind → Step
poll_step (protocol d code) =
    if code == "authorization_pending"
    then pending
    else if code == "slow_down"
    then slow_down
    else if code == "rate_limit_exceeded"
    then transient
    else terminal
poll_step (network true) = terminal
poll_step (network false) = transient
poll_step (other reason) = terminal

-- CibaInitiateResponse, less the id that the requests carry
pub record Initiated : Type 0 where
  pub expires_in : ℕ
  pub interval : ℕ
  pub received_at : ℕ

-- What the loop meets: how much longer than asked the sleep before poll n takes, how long poll n
-- takes, and what it returns or raises.
pub record World (A : Type 0) : Type 0 where
  pub overslept : ℕ → ℕ
  pub spent : ℕ → ℕ
  pub answer : ℕ → A ⊎ PollError

-- One turn: the wait, the time at which it was to end, and the answer of the poll.
pub record Turn (A : Type 0) : Type 0 where
  pub wait : ℕ
  pub due : ℕ
  pub answer : A ⊎ PollError

pub data Ending (A : Type 0) : Type 0 where
  polling : Ending A
  returned : A → Ending A
  raised : PollError → Ending A

-- floor = retry_after_ms, where it is set
abbrev pub floor_after : Option ℕ → ℕ
floor_after none = 0
floor_after (some ms) = ms

module _ {A : Type 0} where
  -- the except clause, with the loop's next turn on an interval and a floor
  abbrev pub after_step :
      Step → PollError → ℕ → (ℕ → ℕ → Ending A × List (Turn A)) → Ending A × List (Turn A)
  after_step slow_down e interval next = next (interval + slow_down_increment * 1000) 0
  after_step terminal e interval next = (raised e, [])
  after_step pending e interval next = next interval (floor_after e.retry_after)
  after_step transient e interval next = next interval (floor_after e.retry_after)

  abbrev pub after_poll :
      A ⊎ PollError → ℕ → (ℕ → ℕ → Ending A × List (Turn A)) → Ending A × List (Turn A)
  after_poll (inl tokens) interval next = (returned tokens, [])
  after_poll (inr e) interval next = after_step (poll_step e.kind) e interval next

module _ {A : Type 0} (w : World A) (deadline : ℕ) where
  -- the loop from poll n on, at a time, for so many turns
  abbrev pub await_from : ℕ → ℕ → ℕ → ℕ → ℕ → Ending A × List (Turn A)
  await_from zero n now interval floor = (polling, [])
  await_from (suc fuel) n now interval floor =
      let wait = max interval floor in
      let (ending, turns) =
        after_poll (w.answer n) interval
          (λ i f. await_from fuel (n + 1) (now + wait + w.overslept n + w.spent n) i f) in
      if leb deadline (now + wait)
      then (raised local_expiry, [])
      else (ending, (record { wait = wait; due = now + wait; answer = w.answer n }) ∷ turns)

abbrev pub first_interval : Initiated → ℕ
first_interval i = (if ltb 0 i.interval then i.interval else default_interval) * 1000

abbrev pub deadline_of : Initiated → ℕ
deadline_of i = i.received_at + i.expires_in * 1000

-- ciba_await, called at a time, for so many turns
unfoldable pub ciba_await : {A : Type 0} → World A → Initiated → ℕ → ℕ → Ending A × List (Turn A)
unfolding poll_step
ciba_await w i now fuel = await_from w (deadline_of i) fuel 0 now (first_interval i) 0

-- CibaDelivery, with every text that is neither
pub data Delivery : Type 0 where
  poll_mode ping_mode unknown_mode : Delivery

-- The arguments of initiate_members.
pub record Asked : Type 0 where
  pub scope : String
  pub login_hint : Option String
  pub id_token_hint : Option String
  pub binding_message : Option String
  pub requested_expiry : Option ℤ
  pub acr_values : Option String
  pub resource : Option String
  pub delivery : Delivery
  pub notification_token : Option String

-- The field that a ValidationError of ciba_initiate names.
pub data InitiateError : Type 0 where
  login_hint notification_token delivery : InitiateError

-- members[key] = value, where it is set
abbrev pub member_text : String → Option String → Fields → Fields
member_text key none rest = rest
member_text key (some s) rest = field key (str s) rest

abbrev pub member_int : String → Option ℤ → Fields → Fields
member_int key none rest = rest
member_int key (some n) rest = field key (int n) rest

abbrev pub members_of : Asked → Fields
members_of a = field "scope" (str a.scope) (
    member_text "login_hint" a.login_hint (
      member_text "id_token_hint" a.id_token_hint (
        member_text "binding_message" a.binding_message (
          member_int "requested_expiry" a.requested_expiry (
            member_text "acr_values" a.acr_values (
              member_text "resource" a.resource
                (member_text "client_notification_token" a.notification_token end)))))))

abbrev pub blank_or_none : Option String → Bool
blank_or_none none = true
blank_or_none (some s) = is_blank s

abbrev pub check_delivery : Asked → Delivery → Fields ⊎ InitiateError
check_delivery a ping_mode =
    if blank_or_none a.notification_token then inr notification_token else inl (members_of a)
check_delivery a poll_mode =
    if is_some a.notification_token then inr notification_token else inl (members_of a)
check_delivery a unknown_mode = inr delivery

abbrev pub same_flag : Bool → Bool → Bool
same_flag true b = b
same_flag false b = not b

-- initiate_members
unfoldable pub initiate_members : Asked → Fields ⊎ InitiateError
initiate_members a =
    if same_flag (is_some a.login_hint) (is_some a.id_token_hint)
    then inr login_hint
    else check_delivery a a.delivery

-- What handle_ping raises: AuthError, or a ValidationError on the body or on its id.
pub data PingError : Type 0 where
  refused not_json no_id : PingError

abbrev pub authorizations : List (String × String) → List String
authorizations [] = []
authorizations ((name, value) ∷ headers) =
    let rest = authorizations headers in
    if lower_equals name "authorization" then value ∷ rest else rest

abbrev pub token_in : Option (String × String) → Option String
token_in none = none
token_in (some (scheme, token)) =
    if lower_equals scheme "bearer" && not (is_blank token) then some token else none

-- the token of the one header
abbrev pub bearer_of : List String → Option String
bearer_of [] = none
bearer_of (value ∷ []) = token_in (partition b' ' value)
bearer_of (value ∷ (other_value ∷ values)) = none

abbrev pub read_id : Option Value → String ⊎ PingError
read_id (some (str id)) = if is_blank id then inr no_id else inl id
read_id _ = inr no_id

abbrev pub read_ping : Option Value → String ⊎ PingError
read_ping none = inr not_json
read_ping (some (obj d)) = read_id (get "auth_req_id" d)
read_ping (some v) = inr no_id

module _ (rt : Runtime) where
  abbrev pub token_is : String → Option String → Bool
  token_is expected none = false
  token_is expected (some token) =
      not (is_blank expected) && compare_digest (rt.encode token) (rt.encode expected)

  -- handle_ping, on the header pairs
  unfoldable pub handle_ping : List (String × String) → Bytes → String → String ⊎ PingError
  unfolding compare_digest lower_equals partition
  handle_ping headers body expected =
      if token_is expected (bearer_of (authorizations headers))
      then read_ping (rt.loads body)
      else inr refused
