-- ===== src/OidcState.antt =====
-- src/axiam_sdk/_oidc_state.py: the store of the logins in flight. Times are readings of the
-- monotonic clock, in one unit of which a second has `second`.
pub mod SingleUse
use axiam_python_sdk.Base.{
  ℕ, ◌+◌, ◌*◌, String, Bool, Option, none, some, List, [], length, if◌then◌else◌, leb, not,
}
use axiam_python_sdk.Dict.{Dict, lookup, put, keep, remove}

-- 600 seconds, in microseconds
abbrev pub oidc_state_ttl : ℕ
oidc_state_ttl = 600 * 1000000

pub record OidcStateEntry : Type 0 where
  pub state : String
  pub nonce : String
  pub code_verifier : String
  pub redirect_uri : String
  pub return_to : Option String

pub record MemoryOidcStateStore : Type 0 where
  pub ttl : ℕ
  pub entries : Dict (OidcStateEntry × ℕ)

-- MemoryOidcStateStore(ttl_seconds)
unfoldable pub new_store : ℕ → MemoryOidcStateStore
new_store ttl = record {
  ttl = if leb ttl oidc_state_ttl then ttl else oidc_state_ttl;
  entries = [];
}

abbrev pub unexpired : ℕ → OidcStateEntry × ℕ → Bool
unexpired now (entry, expires_at) = not (leb expires_at now)

-- _sweep_locked
unfoldable pub sweep : ℕ → MemoryOidcStateStore → MemoryOidcStateStore
sweep now s = record s { entries = keep (unexpired now) s.entries }

-- size: the store is swept on the way
unfoldable pub size : ℕ → MemoryOidcStateStore → MemoryOidcStateStore × ℕ
unfolding sweep
size now s = (sweep now s, length (sweep now s).entries)

-- save: `swept` and `now` are the two readings of the clock
unfoldable pub save : ℕ → ℕ → OidcStateEntry → MemoryOidcStateStore → MemoryOidcStateStore
unfolding sweep
save swept now entry s =
    let s' = sweep swept s in
    record s' { entries = put entry.state (entry, now + s.ttl) s'.entries }

abbrev pub unless_expired : ℕ → Option (OidcStateEntry × ℕ) → Option OidcStateEntry
unless_expired now none = none
unless_expired now (some (entry, expires_at)) = if leb expires_at now then none else some entry

unfoldable pub consume :
    ℕ → String → MemoryOidcStateStore → MemoryOidcStateStore × Option OidcStateEntry
consume now state s =
    (record s { entries = remove state s.entries }, unless_expired now (lookup state s.entries))
