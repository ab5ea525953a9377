-- ===== src/RefreshGuard.antt =====
-- src/axiam_sdk/token/refresh_guard.py: the single-flight refresh guard. One lock serialises the
-- entry points of both paradigms, so a critical section is one function on the guard.
pub mod SingleFlight
pub mod Lock
pub mod Exclusion
use axiam_python_sdk.Base.{
  ℕ, String, Bool, true, false, ◌&&◌, not, Option, none, some, List, [], ◌∷◌, ◌==◌, if◌then◌else◌,
  is_some,
}
use axiam_python_sdk.Text.{is_blank}

pub record Guard : Type 0 where
  pub cached_access : Option String
  pub cached_refresh : Option String
  pub cached_exp : Option ℕ
  pub has_any : Bool

abbrev pub new_guard : Guard
new_guard = record {
  cached_access = none;
  cached_refresh = none;
  cached_exp = none;
  has_any = false;
}

-- What do_refresh returns, read by attribute or by key.
pub record Refreshed : Type 0 where
  pub access : Option String
  pub refresh : Option String
  pub exp : Option ℕ

-- cached_access != observed
unfoldable pub differs : Option String → String → Bool
differs none observed = true
differs (some cached) observed = not (cached == observed)

unfoldable pub should_skip_refresh : Guard → Option String → Bool
unfolding differs
should_skip_refresh g none = false
should_skip_refresh g (some observed) = g.has_any && differs g.cached_access observed

-- `if refresh:` keeps the old token for None and for the empty string
abbrev pub newer : Option String → Option String → Option String
newer none old = old
newer (some refresh) old = if is_blank refresh then old else some refresh

unfoldable pub store_refreshed : Refreshed → Guard → Guard
store_refreshed r g = record {
  cached_access = r.access;
  cached_refresh = newer r.refresh g.cached_refresh;
  cached_exp = r.exp;
  has_any = true;
}

-- The token, the RuntimeError of a refresh that gave none, or what do_refresh raised.
pub data Outcome : Type 0 where
  token : String → Outcome
  no_access_token refresh_raised : Outcome

unfoldable pub require_cached_access : Guard → Outcome
require_cached_access g = elim g.cached_access [ none ↦ no_access_token | some t ↦ token t ]

pub record Ran : Type 0 where
  pub guard : Guard
  pub outcome : Outcome
  -- whether do_refresh was called
  pub called : Bool

-- The critical section; `result` is what do_refresh would return, none where it raises.
unfoldable pub refreshed : Guard → Option Refreshed → Ran
unfolding require_cached_access store_refreshed
refreshed g none = record { guard = g; outcome = refresh_raised; called = true }
refreshed g (some r) =
    let g' = store_refreshed r g in
    record { guard = g'; outcome = require_cached_access g'; called = true }

-- refresh_if_needed_sync and refresh_if_needed_async
unfoldable pub refresh_if_needed : Option String → Option Refreshed → Guard → Ran
unfolding should_skip_refresh require_cached_access refreshed
refresh_if_needed observed result g =
    if should_skip_refresh g observed
    then record { guard = g; outcome = require_cached_access g; called = false }
    else refreshed g result

unfoldable pub seed : String → Option String → Option ℕ → Guard → Guard
seed access refresh exp g = record {
  cached_access = some access;
  cached_refresh = newer refresh g.cached_refresh;
  cached_exp = exp;
  has_any = true;
}
