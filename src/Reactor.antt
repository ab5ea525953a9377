-- ===== src/Reactor.antt =====
-- src/axiam_sdk/amqp/_reactor_registry.py: the events that a reactor may hook.
pub mod Patch
pub mod Policy
pub mod Router
pub mod Protocol
pub mod Dispatching
use Prim.Native.String.{String, ◌++◌}
use axiam_python_sdk.Base.{
  Bool, true, false, ◌&&◌, ◌||◌, Option, none, some, List, [], ◌∷◌, ◌==◌, if◌then◌else◌,
}
use axiam_python_sdk.Text.{starts_with, longer, ends_with}
use axiam_python_sdk.Json.{Value, str, arr, Items, nil, cons}

pub data FailurePolicy : Type 0 where
  fail_open fail_closed : FailurePolicy

pub record ReactorEventSpec : Type 0 where
  pub name : String
  pub interceptable : Bool
  pub mutable : Bool
  pub mutable_fields : List String
  pub default_failure_policy : FailurePolicy

abbrev pub token_pre_issue : String
token_pre_issue = "token.pre_issue"

abbrev pub login_post_auth : String
login_post_auth = "login.post_auth"

abbrev pub user_pre_create : String
user_pre_create = "user.pre_create"

abbrev pub user_pre_update : String
user_pre_update = "user.pre_update"

abbrev pub grant_pre_assign : String
grant_pre_assign = "grant.pre_assign"

abbrev pub profile_fields : List String
profile_fields = "username" ∷ "email" ∷ "metadata." ∷ []

-- A row of the registry with the default policy fail_closed.
abbrev pub closed_row : String → Bool → List String → ReactorEventSpec
closed_row name may_patch fields = record {
  name = name;
  interceptable = true;
  mutable = may_patch;
  mutable_fields = fields;
  default_failure_policy = fail_closed;
}

unfoldable pub event_registry : List ReactorEventSpec
event_registry =
    (record {
      name = token_pre_issue;
      interceptable = true;
      mutable = true;
      mutable_fields = "ext." ∷ [];
      default_failure_policy = fail_open;
    })
    ∷ closed_row login_post_auth false []
    ∷ closed_row user_pre_create true profile_fields
    ∷ closed_row user_pre_update true profile_fields
    ∷ closed_row grant_pre_assign false []
    ∷ []

unfoldable pub find_spec : String → List ReactorEventSpec → Option ReactorEventSpec
find_spec name [] = none
find_spec name (spec ∷ specs) = if spec.name == name then some spec else find_spec name specs

unfoldable pub event_spec : String → Option ReactorEventSpec
event_spec name = find_spec name event_registry

-- one entry of an allow-list against a field's name
unfoldable pub admits : String → String → Bool
admits allowed field_name =
    if ends_with b'.' allowed
    then longer field_name allowed && starts_with allowed field_name
    else field_name == allowed

unfoldable pub admits_one : List String → String → Bool
unfolding admits
admits_one [] field_name = false
admits_one (allowed ∷ rest) field_name =
    let later = admits_one rest field_name in if admits allowed field_name then true else later

unfoldable pub patch_field_allowed : ReactorEventSpec → String → Bool
patch_field_allowed spec field_name =
    if spec.mutable then admits_one spec.mutable_fields field_name else false

abbrev pub is_open : Option ReactorEventSpec → Bool
is_open none = false
is_open (some spec) = elim spec.default_failure_policy [ fail_open ↦ true | fail_closed ↦ false ]

-- the loop over the names, which any name that is not known to be open ends
unfoldable pub compose : Items → FailurePolicy
compose nil = fail_open
compose (cons (str name) names) =
    let rest = compose names in if is_open (event_spec name) then rest else fail_closed
compose (cons _ names) = fail_closed

-- for a list of names, where `object` is anything that JSON has
unfoldable pub default_failure_policy_for : Value → FailurePolicy
unfolding compose
default_failure_policy_for (arr nil) = fail_closed
default_failure_policy_for (arr names) = compose names
default_failure_policy_for _ = fail_closed

-- reactor_routing_key
unfoldable pub reactor_routing_key : String → String → String
reactor_routing_key tenant_id event = tenant_id ++ ("." ++ event)

-- reactor_queue_name
unfoldable pub reactor_queue_name : String → String → String
reactor_queue_name tenant_id reactor_id = "axiam.reactor.q." ++ (tenant_id ++ ("." ++ reactor_id))
