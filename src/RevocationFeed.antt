-- ===== src/RevocationFeed.antt =====
-- src/axiam_sdk/_revocation_feed.py: the poller of the revocation feed. Times are readings of the
-- monotonic clock, in microseconds.
pub mod Sticky
pub mod Rate
use Prim.Native.Char.{code}
use Prim.Native.String
use axiam_python_sdk.Base.{
  ℕ, ◌+◌, ◌-◌, ◌*◌, suc, String, ◌==◌, Bool, true, false, ◌&&◌, not, Option, none, some, List, [],
  ◌∷◌, if◌then◌else◌, leb, ltb, eqb,
}
use axiam_python_sdk.Text.{is_blank}
use axiam_python_sdk.Json.{Value, str, arr, obj, Items, nil, cons, Fields, get, equals_text}
use axiam_python_sdk.Runtime.{Bytes}
use axiam_python_sdk.Ssf.Keys.{Response}

abbrev pub min_poll_interval : ℕ
min_poll_interval = 15 * 1000000

abbrev pub max_entries : ℕ
max_entries = 100000

-- What an entry is computed with: SHA-256 of a string's UTF-8 bytes, in URL-safe base64.
abbrev pub Digest : Type 0
Digest = String → String

-- text.rstrip("=")
unfoldable pub strip_padding : String → String
strip_padding String.[] = String.[]
strip_padding (String.◌∷◌ c s) =
    let rest = strip_padding s in
    if is_blank rest && eqb (code c) b'=' then String.[] else String.◌∷◌ c rest

-- revocation_entry_for
unfoldable pub revocation_entry_for : Digest → String → String
unfolding strip_padding
revocation_entry_for digest sid = strip_padding (digest sid)

pub record RevocationFeed : Type 0 where
  pub poll_interval : ℕ
  pub entries : Option (List String)
  pub last_attempt : Option ℕ

-- RevocationFeed(poll_interval_seconds=...)
unfoldable pub new_feed : ℕ → RevocationFeed
new_feed interval = record {
  poll_interval = if leb min_poll_interval interval then interval else min_poll_interval;
  entries = none;
  last_attempt = none;
}

abbrev pub item_count : Items → ℕ
item_count nil = 0
item_count (cons v vs) = suc (item_count vs)

-- {entry for entry in revoked if isinstance(entry, str)}
abbrev pub texts : Items → List String
texts nil = []
texts (cons (str s) vs) = s ∷ texts vs
texts (cons _ vs) = texts vs

abbrev pub is_sha256 : Option Value → Bool
is_sha256 none = false
is_sha256 (some v) = equals_text v "SHA-256"

abbrev pub revoked_items : Option Value → Option (List String)
revoked_items (some (arr items)) =
    if ltb max_entries (item_count items) then none else some (texts items)
revoked_items _ = none

unfoldable pub read_document : Option Value → Option (List String)
read_document (some (obj d)) =
    if is_sha256 (get "alg" d) then revoked_items (get "revoked" d) else none
read_document _ = none

-- _fetch_once, for the response or the exception of the request
unfoldable pub fetch_once : Option Response → Option (List String)
unfolding read_document
fetch_once none = none
fetch_once (some r) = if eqb r.status 200 then read_document r.body else none

-- a failure leaves the set as it was
abbrev pub replaced : Option (List String) → Option (List String) → Option (List String)
replaced none old = old
replaced (some new) old = some new

unfoldable pub refresh : ℕ → Option Response → RevocationFeed → RevocationFeed
unfolding fetch_once
refresh now response f = record f {
  entries = replaced (fetch_once response) f.entries;
  last_attempt = some now;
}

unfoldable pub due : ℕ → RevocationFeed → Bool
due now f = elim f.last_attempt [ none ↦ true | some last ↦ leb f.poll_interval (now - last) ]

-- _refresh_if_stale, with whether it made a request: `now` and `done` are the clock before the
-- request and after it
unfoldable pub refresh_if_stale : ℕ → ℕ → Option Response → RevocationFeed → RevocationFeed × Bool
unfolding due refresh
refresh_if_stale now done response f =
    if due now f then (refresh done response f, true) else (f, false)

abbrev pub lists : List String → String → Bool
lists [] entry = false
lists (e ∷ es) entry = let rest = lists es entry in if e == entry then true else rest

abbrev pub holds : Option (List String) → String → Bool
holds none entry = false
holds (some es) entry = lists es entry

unfoldable pub is_revoked :
    Digest → ℕ → ℕ → Option Response → String → RevocationFeed → RevocationFeed × Bool
unfolding refresh_if_stale
is_revoked digest now done response sid f =
    let f' = (refresh_if_stale now done response f).0 in
    (f', holds f'.entries (revocation_entry_for digest sid))
