-- ===== src/Ssf/Store.antt =====
-- MemoryReplayStore of src/axiam_sdk/ssf/_receiver.py, the interface that a store gives to the
-- receiver, and what the receiver makes of its answer.
use axiam_python_sdk.Base.{ℕ, ◌+◌, String, List, [], ◌∷◌, ◌++◌, if◌then◌else◌, is_some}
use axiam_python_sdk.Dict.{Dict, lookup, put}
use axiam_python_sdk.Expiring.{forget}
use axiam_python_sdk.Ssf.{
  Failure, refusal, other, network_from, Result, ok, raised, replayed, SecurityEvent,
}

-- The answers of a store: new and recorded, already held, or an exception.
pub data Answer : Type 0 where
  fresh held : Answer
  cannot : Failure → Answer

-- A store with its state: `check_and_record` for the configured window.
abbrev pub Asks : Type 0 → Type 0
Asks S = String → S → S × Answer

pub record MemoryReplayStore : Type 0 where
  pub seen : Dict ℕ

-- MemoryReplayStore.check_and_record
unfoldable pub check_and_record : ℕ → ℕ → Asks MemoryReplayStore
check_and_record window now jti s =
    let kept = forget now s.seen in
    if is_some (lookup jti kept)
    then (record { seen = kept }, held)
    else (record { seen = put jti (now + window) kept }, fresh)

-- _store_failure: an error of the SDK passes through, all else becomes a NetworkError
unfoldable pub store_failure : Failure → Failure
store_failure (refusal reason) = network_from (refusal reason)
store_failure (other message) = network_from (other message)
store_failure failure = failure

-- _record
unfoldable pub settle : SecurityEvent → Answer → Result SecurityEvent
unfolding store_failure
settle event fresh = ok event
settle event held = raised (refusal replayed)
settle event (cannot failure) = raised (store_failure failure)

-- A store beside the list of the ids that it answered to be new, in the order of the calls.
abbrev pub noted : Answer → String → List String → List String
noted fresh jti ids = ids ++ jti ∷ []
noted held jti ids = ids
noted (cannot failure) jti ids = ids

abbrev pub logged : {S : Type 0} → Asks S → Asks (S × List String)
logged asks jti (s, ids) = let (s', answer) = asks jti s in ((s', noted answer jti ids), answer)
