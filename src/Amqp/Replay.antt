-- ===== src/Amqp/Replay.antt =====
-- src/axiam_sdk/amqp/_replay.py: the nonce store and the freshness policy of a parsed message.
-- Times are natural numbers in one unit: `mono` reads time.monotonic, `wall` the UTC clock.
pub mod Refinement
pub mod Window
use Prim.Native.String.{◌++◌}
use axiam_python_sdk.Base.{
  ℕ, ◌+◌, String, Bool, true, false, ◌||◌, not, Option, none, some, [], ltb, leb, if◌then◌else◌,
  is_some,
}
use axiam_python_sdk.Base.Int.{ltb_ℕ, gap}
use axiam_python_sdk.Dict.{Dict, lookup, put}
use axiam_python_sdk.Expiring.{forget}
use axiam_python_sdk.Text.{strip, ends_with, drop_last, is_blank}
use axiam_python_sdk.Json.{Value, int, str, Fields, get}
use axiam_python_sdk.Runtime.{Runtime}

pub record NonceStore : Type 0 where
  pub ttl_seconds : ℕ
  -- nonce -> expiry
  pub seen : Dict ℕ

abbrev pub new_store : ℕ → NonceStore
new_store ttl = record { ttl_seconds = ttl; seen = [] }

-- _prune: drops every entry with expiry <= now
unfoldable pub prune : ℕ → NonceStore → NonceStore
prune now s = record s { seen = forget now s.seen }

-- the store after the call, and whether the nonce was fresh
unfoldable pub check_and_record : String → ℕ → NonceStore → NonceStore × Bool
unfolding prune
check_and_record nonce now s =
    let pruned = prune now s in
    if is_some (lookup nonce pruned.seen)
    then (pruned, false)
    else (record pruned { seen = put nonce (now + s.ttl_seconds) pruned.seen }, true)

abbrev pub min_key_version : ℕ
min_key_version = 2

pub data Reason : Type 0 where
  missing_key_version unsupported_key_version missing_issued_at unparseable_issued_at : Reason
  stale_issued_at missing_nonce replayed_nonce : Reason

-- the `key_version` checks
unfoldable pub check_key_version : Option Value → Option Reason
check_key_version (some (int k)) =
    if ltb_ℕ k min_key_version then some unsupported_key_version else none
check_key_version _ = some missing_key_version

-- the `nonce` as a non-empty string
unfoldable pub nonce_text : Option Value → Option String
nonce_text (some (str n)) = if is_blank n then none else some n
nonce_text _ = none

unfoldable pub check_nonce : Option String → ℕ → NonceStore → NonceStore × Option Reason
check_nonce none mono s = (s, some missing_nonce)
check_nonce (some n) mono s =
    let (s', fresh) = check_and_record n mono s in (s', if fresh then none else some replayed_nonce)

-- One `if ... return reason`, and the checks that come after it.
abbrev pub check :
    Option Reason → NonceStore → NonceStore × Option Reason → NonceStore × Option Reason
check (some reason) s later = (s, some reason)
check none s later = later

module _ (rt : Runtime) where
  -- _parse_rfc3339
  unfoldable pub parse_rfc3339 : String → Option ℕ
  unfolding strip ends_with drop_last
  parse_rfc3339 value =
      let normalized = strip value in
      rt.fromisoformat (
        if ends_with b'Z' normalized || ends_with b'z' normalized
        then drop_last normalized ++ "+00:00"
        else normalized)

  unfoldable pub check_moment : Option ℕ → ℕ → ℕ → Option Reason
  check_moment none skew wall = some unparseable_issued_at
  check_moment (some issued_at) skew wall =
      if ltb skew (gap wall issued_at) then some stale_issued_at else none

  -- the `issued_at` checks
  unfoldable pub check_issued_at : Option Value → ℕ → ℕ → Option Reason
  unfolding check_moment
  check_issued_at (some (str t)) skew wall = check_moment (parse_rfc3339 t) skew wall
  check_issued_at _ skew wall = some missing_issued_at

  -- None, or the reason to reject; the store changes only in the last check
  unfoldable pub validate_freshness : Fields → ℕ → ℕ → ℕ → NonceStore → NonceStore × Option Reason
  unfolding check_nonce
  validate_freshness event skew wall mono s =
      check (check_key_version (get "key_version" event)) s (
        check (check_issued_at (get "issued_at" event) skew wall) s
          (check_nonce (nonce_text (get "nonce" event)) mono s))
