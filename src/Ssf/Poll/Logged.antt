-- ===== src/Ssf/Poll/Logged.antt =====
-- A batch of SsfReceiver.poll over a store whose new ids are noted is that over the store itself.
use axiam_python_sdk.Base.{String, ◌≡◌, refl, ap, none, some, List, [], ◌∷◌}
use axiam_python_sdk.Json.{Value, null, bool, int, float, str, arr, obj}
use axiam_python_sdk.Ssf.{
  Failure, refusal, network, network_from, auth, authz, other, Result, ok, raised, malformed,
  SecurityEvent,
}
use axiam_python_sdk.Ssf.Keys.{Core}
use axiam_python_sdk.Ssf.Store.{Asks, settle, noted, logged}
use axiam_python_sdk.Ssf.Verify.{Setup, judge_set}
use axiam_python_sdk.Ssf.Poll.{
  Entry, Trouble, Batch, keys_of, add_event, add_refused, add_unjudged, after_failure, after_record,
  after_judgement, after_judge, judge_entry, poll_sets,
}

-- The batch without the noted ids.
abbrev pub unlogged : {S : Type 0} → Batch (S × List String) → Batch S
unlogged b = record { core = b.core; store = b.store.0; ended = b.ended }

module _ {S : Type 0} (next : Core → S × List String → Trouble → Batch (S × List String))
    (plain : Core → S → Trouble → Batch S)
    (agree : (core : Core) (s : S × List String) (t : Trouble)
      → unlogged (next core s t) ≡ plain core s.0 t) where
  after_failure-unlogged :
      (core : Core) (jti : String) (s : S × List String) (f : Failure)
      → unlogged (after_failure next core jti s f) ≡ after_failure plain core jti s.0 f
  unfolding after_failure
  after_failure-unlogged core jti s (refusal reason) =
      ap (add_refused jti reason) (agree core s none)
  after_failure-unlogged core jti s (network m) = ap (add_unjudged jti) (agree core s _)
  after_failure-unlogged core jti s (network_from f) = ap (add_unjudged jti) (agree core s _)
  after_failure-unlogged core jti s (auth m) = refl
  after_failure-unlogged core jti s (authz m) = refl
  after_failure-unlogged core jti s (other m) = refl

  after_record-unlogged :
      (core : Core) (jti : String) (s : S × List String) (r : Result SecurityEvent)
      → unlogged (after_record next core jti s r) ≡ after_record plain core jti s.0 r
  unfolding after_record
  after_record-unlogged core jti s (ok event) = ap (add_event event) (agree core s none)
  after_record-unlogged core jti s (raised f) = after_failure-unlogged core jti s f

  module _ (u : Setup) (asks : Asks S) (e : Entry) (keys : List String) where
    after_judgement-unlogged :
        (core : Core) (event : SecurityEvent) (s : S × List String) (t : Trouble)
        → unlogged (after_judgement next core (logged asks) e.jti event s t)
          ≡ after_judgement plain core asks e.jti event s.0 t
    unfolding after_judgement
    after_judgement-unlogged core event s (some t) = ap (add_unjudged e.jti) (agree core s _)
    after_judgement-unlogged core event (s, ids) none =
        after_record-unlogged core e.jti
          ((asks event.jti s).0, noted (asks event.jti s).1 event.jti ids)
          (settle event (asks event.jti s).1)

    after_judge-unlogged :
        (s : S × List String) (t : Trouble) (core : Core) (r : Result SecurityEvent)
        → unlogged (after_judge u (logged asks) next e keys s t (core, r))
          ≡ after_judge u asks plain e keys s.0 t (core, r)
    unfolding after_judge
    after_judge-unlogged s t core (ok event) = after_judgement-unlogged core event s t
    after_judge-unlogged s t core (raised (refusal reason)) =
        ap (add_refused e.jti reason) (agree core s t)
    after_judge-unlogged s t core (raised (network m)) = refl
    after_judge-unlogged s t core (raised (network_from f)) = refl
    after_judge-unlogged s t core (raised (auth m)) = refl
    after_judge-unlogged s t core (raised (authz m)) = refl
    after_judge-unlogged s t core (raised (other m)) = refl

    judge_entry-unlogged :
        (core : Core) (s : S × List String) (t : Trouble) (v : Value)
        → unlogged (judge_entry u (logged asks) next e keys core s t v)
          ≡ judge_entry u asks plain e keys core s.0 t v
    unfolding judge_entry
    judge_entry-unlogged core s t (str token) =
        let judged = judge_set u e.world token (some e.jti) core in
        after_judge-unlogged s t judged.0 judged.1
    judge_entry-unlogged core s t null = ap (add_refused e.jti malformed) (agree core s t)
    judge_entry-unlogged core s t (bool b) = ap (add_refused e.jti malformed) (agree core s t)
    judge_entry-unlogged core s t (int n) = ap (add_refused e.jti malformed) (agree core s t)
    judge_entry-unlogged core s t (float x) = ap (add_refused e.jti malformed) (agree core s t)
    judge_entry-unlogged core s t (arr xs) = ap (add_refused e.jti malformed) (agree core s t)
    judge_entry-unlogged core s t (obj d) = ap (add_refused e.jti malformed) (agree core s t)

module _ (u : Setup) {S : Type 0} (asks : Asks S) where
  pub poll_sets-unlogged :
      (es : List Entry) (core : Core) (s : S × List String) (t : Trouble)
      → unlogged (poll_sets u (logged asks) es core s t) ≡ poll_sets u asks es core s.0 t
  unfolding poll_sets
  poll_sets-unlogged [] core s t = refl
  poll_sets-unlogged (e ∷ es) core s t =
      judge_entry-unlogged (poll_sets u (logged asks) es) (poll_sets u asks es)
        (poll_sets-unlogged es) u asks e (keys_of (e ∷ es)) core s t e.set
