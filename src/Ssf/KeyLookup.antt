-- ===== src/Ssf/KeyLookup.antt =====
-- SsfReceiver._fetch_jwks and _key_for of src/axiam_sdk/ssf/_receiver.py. `clock i` is the i-th
-- reading of the clock that one lookup makes, and `http` answers its requests, in the first or in
-- the second fetch.
pub mod Limit
pub mod Found
use axiam_python_sdk.Base.{
  ℕ, ◌+◌, String, ◌==◌, Bool, true, false, ◌&&◌, ◌||◌, not, Option, none, some, if◌then◌else◌,
  is_some,
}
use axiam_python_sdk.Text.{lower_equals}
use axiam_python_sdk.Dict.{Dict, lookup}
use axiam_python_sdk.Json.{Fields, get}
use axiam_python_sdk.Runtime.{Jose}
use axiam_python_sdk.Ssf.{Failure, other, network, network_from, Result, ok, raised, ◌>>=◌, ◌>>◌}
use axiam_python_sdk.Ssf.Keys.{
  Response, Url, Core, needs_fetch, may_force, note_failed_fetch, is_loopback, is_success, as_text,
  document, fails, or_fail, when_ok, read_jwks,
}

-- What the lookup takes from outside: PyJWT, and httpx.URL.
pub record Web : Type 0 where
  pub jose : Jose
  pub parse_url : String → Option Url

-- A part of a lookup: the cache after it, how it ended, and how often it fetched.
pub record Progress (A : Type 0) : Type 0 where
  pub core : Core
  pub answer : Result A
  pub fetches : ℕ

-- How a request ends: a response, httpx.TransportError, or another exception of httpx.
pub data Got : Type 0 where
  response : Response → Got
  transport_error : Got
  broken : String → Got

abbrev pub Http : Type 0
Http = String → Got

-- _get
abbrev pub got : Got → Result Response
got (response r) = ok r
got transport_error = fails "transport"
got (broken message) = raised (other message)

-- assert value is not None
abbrev pub asserted : {A : Type 0} → Option A → Result A
asserted none = raised (other "assertion")
asserted (some a) = ok a

-- isinstance(error, NetworkError)
abbrev pub is_network : Failure → Bool
is_network (network message) = true
is_network (network_from cause) = true
is_network failure = false

-- `except NetworkError`: the failure is counted and raised again
abbrev pub count_failure : ℕ → Core × Result (Unit {0}) → Core × Result (Unit {0})
count_failure now (core, ok _) = (core, ok tt)
count_failure now (core, raised e) =
    (if is_network e then note_failed_fetch now core else core, raised e)

module _ (web : Web) where
  unfoldable pub check_url : String → Result String
  unfolding is_loopback
  check_url url = elim (web.parse_url url) [
    | none ↦ fails "not an absolute URL"
    | some u ↦
        if lower_equals u.scheme "https" || (lower_equals u.scheme "http" && is_loopback u.host)
        then ok url
        else fails "must be an https URL"
  ]

  -- the `jwks_uri` of a configuration document
  unfoldable pub discovered_jwks_uri : Core → Response → Result String
  unfolding check_url
  discovered_jwks_uri core r =
      if is_success r
      then (do
        d ← or_fail (document r) "the SSF configuration is not JSON"
        issuer ← or_fail (as_text (get "issuer" d)) "not the configured issuer"
        when_ok (issuer == core.issuer) "not the configured issuer"
        uri ← or_fail (as_text (get "jwks_uri" d)) "no jwks_uri"
        check_url uri)
      else fails "the SSF configuration fetch failed"

  -- the configured or discovered `jwks_uri`
  unfoldable pub resolve_uri : Http → Core → Result String
  unfolding check_url discovered_jwks_uri
  resolve_uri http core = elim core.jwks_uri [
    | some uri ↦ ok uri
    | none ↦ do
      url ← asserted core.discovery_url
      url' ← check_url url
      r ← got (http url')
      discovered_jwks_uri core r
  ]

  unfoldable pub download : Http → String → Result Response
  unfolding check_url
  download http uri = do url ← check_url uri; got (http url)

  abbrev pub stored : ℕ → Core → Result (Dict Fields) → Core × Result (Unit {0})
  stored now core (raised e) = (core, raised e)
  stored now core (ok keys) = (record core { keys = some keys; fetched_at = now }, ok tt)

  -- store_jwks: a forced refetch is counted before the response is read
  unfoldable pub store_jwks : Bool → ℕ → Response → Core → Core × Result (Unit {0})
  store_jwks forced now r core =
      let core' = record core { last_forced = if forced then some now else core.last_forced } in
      stored now core' (read_jwks web.jose r)

  abbrev pub store_response : Bool → ℕ → Core → Result Response → Core × Result (Unit {0})
  store_response forced now core (raised e) = (core, raised e)
  store_response forced now core (ok r) = store_jwks forced now r core

  -- the body of the try, on the resolved `jwks_uri`
  abbrev pub fetch_from : Http → Bool → ℕ → Core → Result String → Core × Result (Unit {0})
  fetch_from http forced now core (raised e) = (core, raised e)
  fetch_from http forced now core (ok uri) =
      store_response forced now (record core { jwks_uri = some uri }) (download http uri)

  -- _fetch_jwks
  unfoldable pub fetch_jwks : Http → Bool → ℕ → Core → Core × Result (Unit {0})
  unfolding store_jwks download note_failed_fetch
  fetch_jwks http forced now core =
      count_failure now (fetch_from http forced now core (resolve_uri http core))

  abbrev pub fetched : Core × Result (Unit {0}) → Progress (Unit {0})
  fetched (core, answer) = record { core = core; answer = answer; fetches = 1 }

  -- the fill of an empty or expired cache
  unfoldable pub fill : (ℕ → ℕ) → (ℕ → Http) → Core → Progress (Unit {0})
  fill clock http core =
      if needs_fetch (clock 0) core
      then (if may_force (clock 1) core
          then fetched (fetch_jwks (http 0) false (clock 2) core)
          else record { core = core; answer = fails "within the minute"; fetches = 0 })
      else record { core = core; answer = ok tt; fetches = 0 }

  abbrev pub find_key : String → Core → Option Fields
  find_key kid core = elim core.keys [ none ↦ none | some keys ↦ lookup kid keys ]

  -- the one refetch for an unknown key id
  unfoldable pub refetch : (ℕ → ℕ) → (ℕ → Http) → String → Core → Progress (Unit {0})
  refetch clock http kid core =
      if not (is_some (find_key kid core)) && may_force (clock 3) core
      then fetched (fetch_jwks (http 1) true (clock 4) core)
      else record { core = core; answer = ok tt; fetches = 0 }

  abbrev pub finish : String → Result (Unit {0}) → Core → Result (Option Fields)
  finish kid (raised e) core = raised e
  finish kid (ok _) core = ok (find_key kid core)

  after_fill :
      (ℕ → ℕ)
      → (ℕ → Http)
      → String
      → Progress (Unit {0})
      → Result (Unit {0})
      → Progress (Option Fields)
  after_fill clock http kid p (raised e) = record {
    core = p.core;
    answer = raised e;
    fetches = p.fetches;
  }
  after_fill clock http kid p (ok _) =
      let q = refetch clock http kid p.core in
      record { core = q.core; answer = finish kid q.answer q.core; fetches = p.fetches + q.fetches }

  -- _key_for
  unfoldable pub key_for : (ℕ → ℕ) → (ℕ → Http) → String → Core → Progress (Option Fields)
  unfolding after_fill
  key_for clock http kid core = let p = fill clock http core in after_fill clock http kid p p.answer
