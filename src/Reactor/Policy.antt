-- ===== src/Reactor/Policy.antt =====
-- The failure policy that src/axiam_sdk/amqp/_reactor_registry.py composes for a registration.
use axiam_python_sdk.Base.{
  String, ◌≡◌, refl, sym, ap, ◌↔◌, inl, inr, true, arith, eq_iff, Bool-cases,
}
use axiam_python_sdk.Json.{Value, null, bool, int, float, str, arr, obj, Items, nil, cons}
use axiam_python_sdk.Reactor.{
  fail_open, event_registry, find_spec, event_spec, is_open, compose, default_failure_policy_for,
  token_pre_issue,
}

-- A list with at least one name, in which every name is the one of the token event.
abbrev pub AllToken : Items → Type 0
AllToken nil = Unit
AllToken (cons v vs) = (v ≡ str token_pre_issue) × AllToken vs

abbrev pub OnlyToken : Value → Type 0
OnlyToken (arr (cons v vs)) = AllToken (cons v vs)
OnlyToken _ = ⊥

is_open-token : is_open (event_spec token_pre_issue) ≡ true
unfolding event_spec find_spec event_registry
is_open-token = refl

open_is_token : (name : String) → is_open (event_spec name) ≡ true → name ≡ token_pre_issue
unfolding event_spec find_spec event_registry
open_is_token name h = sym ((eq_iff token_pre_issue name).0 (ground arith))

compose-AllToken : (names : Items) → compose names ≡ fail_open → AllToken names
unfolding compose
compose-AllToken nil h = tt
compose-AllToken (cons (str name) names) h = elim (Bool-cases (is_open (event_spec name))) [
  | inl good ↦ (ap str (open_is_token name good), compose-AllToken names (rw good at h))
  | inr bad ↦ absurd (ground arith)
]
compose-AllToken (cons null names) h = absurd (ground arith)
compose-AllToken (cons (bool b) names) h = absurd (ground arith)
compose-AllToken (cons (int n) names) h = absurd (ground arith)
compose-AllToken (cons (float x) names) h = absurd (ground arith)
compose-AllToken (cons (arr xs) names) h = absurd (ground arith)
compose-AllToken (cons (obj d) names) h = absurd (ground arith)

AllToken-compose : (names : Items) → AllToken names → compose names ≡ fail_open
unfolding compose
AllToken-compose nil _ = refl
AllToken-compose (cons v names) (e, rest) = rw (e, is_open-token) (AllToken-compose names rest)

-- A registration's default failure policy is fail_open exactly when it lists at least one event and
-- every event that it lists is `token.pre_issue`; so the order of the list does not matter, and an
-- unknown name, a member that is no string, an empty list or anything that is no list is closed.
pub default_failure_policy_for_iff :
    (names : Value) → (default_failure_policy_for names ≡ fail_open) ↔ OnlyToken names
unfolding default_failure_policy_for
default_failure_policy_for_iff (arr (cons v vs)) =
    (compose-AllToken (cons v vs), AllToken-compose (cons v vs))
default_failure_policy_for_iff (arr nil) = (λ h. absurd (ground arith), λ x. absurd x)
default_failure_policy_for_iff null = (λ h. absurd (ground arith), λ x. absurd x)
default_failure_policy_for_iff (bool b) = (λ h. absurd (ground arith), λ x. absurd x)
default_failure_policy_for_iff (int n) = (λ h. absurd (ground arith), λ x. absurd x)
default_failure_policy_for_iff (float s) = (λ h. absurd (ground arith), λ x. absurd x)
default_failure_policy_for_iff (str s) = (λ h. absurd (ground arith), λ x. absurd x)
default_failure_policy_for_iff (obj d) = (λ h. absurd (ground arith), λ x. absurd x)
