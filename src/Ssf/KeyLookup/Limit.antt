-- ===== src/Ssf/KeyLookup/Limit.antt =====
-- How often the JWKS of src/axiam_sdk/ssf/_receiver.py is fetched.
use axiam_python_sdk.Base.{
  ℕ, ◌+◌, ◌≤◌, ◌<◌, String, ◌≡◌, ◌⊎◌, inl, inr, Bool, true, false, some, arith,
}
use axiam_python_sdk.Ssf.{Result, ok, raised, Failure}
use axiam_python_sdk.Ssf.Keys.{Core, may_force, note_failed_fetch}
use axiam_python_sdk.Ssf.KeyLookup.{
  Web, Http, Progress, is_network, count_failure, fetch_from, resolve_uri, fetch_jwks, after_fill,
  finish, fill, refetch, key_for,
}

may_force_soon :
    (now last : ℕ) (core : Core)
    → core.last_forced ≡ some last
    → now < last + 60
    → may_force now core ≡ false
unfolding may_force
may_force_soon now last core e soon = ground arith

module _ (web : Web) (clock : ℕ → ℕ) (http : ℕ → Http) (kid : String) (core : Core) where
  -- For a minute after a counted fetch, a lookup makes no fetch and leaves the cache as it is.
  pub key_for_within_the_minute :
      (last : ℕ)
      → core.last_forced ≡ some last
      → ((i : ℕ) → clock i < last + 60)
      → ((key_for web clock http kid core).fetches ≡ 0)
        × ((key_for web clock http kid core).core ≡ core)
  unfolding key_for fill refetch
  key_for_within_the_minute last e soon =
      let no1 = may_force_soon (clock 1) last core e (soon 1) in
      let no3 = may_force_soon (clock 3) last core e (soon 3) in
      (ground (arith, no1, no3), ground (arith, no1, no3))

  -- A lookup makes at most two fetches.
  pub key_for-fetches : (key_for web clock http kid core).fetches ≤ 2
  unfolding key_for fill refetch
  key_for-fetches = ground arith

module _ (now : ℕ) (e : Failure) (is : is_network e ≡ true) where
  -- A NetworkError is counted.
  count_failure_counts :
      (fetch : Core × Result (Unit {0}))
      → (count_failure now fetch).1 ≡ raised e
      → (count_failure now fetch).0.last_forced ≡ some now
  unfolding note_failed_fetch
  count_failure_counts (core, ok _) h = absurd (ground arith)
  count_failure_counts (core, raised e') h = ground (arith, is)

  fetch_jwks_failed :
      (web : Web) (http : Http) (core : Core) (forced : Bool)
      → (fetch_jwks web http forced now core).1 ≡ raised e
      → (fetch_jwks web http forced now core).0.last_forced ≡ some now
  unfolding fetch_jwks
  fetch_jwks_failed web http core forced h =
      count_failure_counts (fetch_from web http forced now core (resolve_uri web http core)) h

-- The lookup counted a fetch, at one of its readings of the clock.
abbrev pub Counted : (ℕ → ℕ) → Core → Type 0
Counted clock core = (core.last_forced ≡ some (clock 2)) ⊎ (core.last_forced ≡ some (clock 4))

module _ (web : Web) (clock : ℕ → ℕ) (http : ℕ → Http) (kid : String) (e : Failure)
    (is : is_network e ≡ true) where
  fill_failed :
      (core : Core)
      → (fill web clock http core).answer ≡ raised e
      → 0 < (fill web clock http core).fetches
      → (fill web clock http core).core.last_forced ≡ some (clock 2)
  unfolding fill
  fill_failed core failed some_fetch =
      ground (arith, fetch_jwks_failed (clock 2) e is web (http 0) core false)

  refetch_failed :
      (core : Core)
      → (refetch web clock http kid core).answer ≡ raised e
      → (refetch web clock http kid core).core.last_forced ≡ some (clock 4)
  unfolding refetch
  refetch_failed core failed =
      ground (arith, fetch_jwks_failed (clock 4) e is web (http 1) core true)

  finish-raised :
      (answer : Result (Unit {0})) (core : Core)
      → finish web kid answer core ≡ raised e
      → answer ≡ raised e
  finish-raised (raised e') core h = ground arith
  finish-raised (ok _) core h = absurd (ground arith)

  after_fill_counts :
      (p : Progress (Unit {0})) (answer : Result (Unit {0}))
      → (answer ≡ raised e → 0 < p.fetches → p.core.last_forced ≡ some (clock 2))
      → (after_fill web clock http kid p answer).answer ≡ raised e
      → 0 < (after_fill web clock http kid p answer).fetches
      → Counted clock (after_fill web clock http kid p answer).core
  unfolding after_fill
  after_fill_counts p (raised e') h failed some_fetch = inl (h (ground arith) some_fetch)
  after_fill_counts p (ok _) h failed some_fetch =
      inr (refetch_failed p.core (finish-raised _ _ failed))

  -- A lookup that ends in a NetworkError after a fetch has counted it.
  key_for_counts :
      (core : Core)
      → (key_for web clock http kid core).answer ≡ raised e
      → 0 < (key_for web clock http kid core).fetches
      → Counted clock (key_for web clock http kid core).core
  unfolding key_for
  key_for_counts core failed some_fetch =
      let p = fill web clock http core in
      after_fill_counts p p.answer (fill_failed core) failed some_fetch

-- A JWKS outage is not one fetch per token: after a lookup that fetched and ended in a NetworkError,
-- and whose clock did not go back, a lookup whose readings of the clock all come before a minute has passed since
-- the first one's fetch makes no fetch.
pub outage_limit :
    (web : Web) (clock later : ℕ → ℕ) (http http' : ℕ → Http) (kid kid' : String) (core : Core)
    (e : Failure)
    → is_network e ≡ true
    → clock 2 ≤ clock 4
    → (key_for web clock http kid core).answer ≡ raised e
    → 0 < (key_for web clock http kid core).fetches
    → ((i : ℕ) → later i < clock 2 + 60)
    → (key_for web later http' kid' (key_for web clock http kid core).core).fetches ≡ 0
outage_limit web clock later http http' kid kid' core e is le failed some_fetch soon =
    let core' = (key_for web clock http kid core).core in
    elim (key_for_counts web clock http kid e is core failed some_fetch) [
      | inl first ↦ (key_for_within_the_minute web later http' kid' core' (clock 2) first soon).0
      | inr second ↦
          (key_for_within_the_minute web later http' kid' core' (clock 4) second
            (λ i. omega (arith, soon i))).0
    ]
