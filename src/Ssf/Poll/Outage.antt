-- ===== src/Ssf/Poll/Outage.antt =====
-- A batch of SsfReceiver.poll while the keys or the replay store cannot be reached.
use axiam_python_sdk.Base.{String, ◌≡◌, refl, ap, some, List, [], ◌∷◌}
use axiam_python_sdk.Json.{Value, null, bool, int, float, str, arr, obj}
use axiam_python_sdk.Ssf.{
  Failure, FailureReason, refusal, network, network_from, auth, authz, other, Result, ok, raised,
  malformed, SecurityEvent,
}
use axiam_python_sdk.Ssf.Keys.{Core}
use axiam_python_sdk.Ssf.Store.{Asks}
use axiam_python_sdk.Ssf.Verify.{Setup, judge_set}
use axiam_python_sdk.Ssf.Poll.{
  Entry, Trouble, Category, Collected, Batch, keys_of, changed, add_refused, add_unjudged, stop,
  after_judgement, after_judge, judge_entry, poll_sets,
}

module _ {S : Type 0} where
  -- The store is left alone, and the trouble stays.
  pub record IsIdle (s : S) (t : Failure × Category) (b : Batch S) : Type 0 where
    pub store_same : b.store ≡ s
    pub kept : Collected
    pub ended : b.ended ≡ ok kept
    pub trouble_same : kept.trouble ≡ some t

  module _ (s : S) (t : Failure × Category) where
    IsIdle-refused :
        (jti : String) (reason : FailureReason) (b : Batch S)
        → IsIdle s t b
        → IsIdle s t (add_refused jti reason b)
    IsIdle-refused jti reason b i = record {
      store_same = i.store_same;
      kept = record i.kept { refused = (record { jti = jti; reason = reason }) ∷ i.kept.refused };
      ended =
          ap
            (changed
              (λ c. record c { refused = (record { jti = jti; reason = reason }) ∷ c.refused }))
            i.ended;
      trouble_same = i.trouble_same;
    }

    IsIdle-unjudged : (jti : String) (b : Batch S) → IsIdle s t b → IsIdle s t (add_unjudged jti b)
    IsIdle-unjudged jti b i = record {
      store_same = i.store_same;
      kept = record i.kept { unjudged = jti ∷ i.kept.unjudged };
      ended = ap (changed (λ c. record c { unjudged = jti ∷ c.unjudged })) i.ended;
      trouble_same = i.trouble_same;
    }

    IsIdle-stop : (core : Core) (keys : List String) → IsIdle s t (stop core s keys (some t))
    IsIdle-stop core keys = record {
      store_same = refl;
      kept = record { events = []; refused = []; unjudged = keys; trouble = some t };
      ended = refl;
      trouble_same = refl;
    }

    module _ (u : Setup) (asks : Asks S) (next : Core → S → Trouble → Batch S)
        (rest_idle : (core : Core) → IsIdle s t (next core s (some t))) (e : Entry)
        (keys : List String) where
      after_judge-IsIdle :
          (core : Core) (r : Result SecurityEvent)
          → IsIdle s t (after_judge u asks next e keys s (some t) (core, r))
      unfolding after_judge after_judgement
      after_judge-IsIdle core (ok ev) = IsIdle-unjudged e.jti _ (rest_idle core)
      after_judge-IsIdle core (raised (refusal reason)) =
          IsIdle-refused e.jti reason _ (rest_idle core)
      after_judge-IsIdle core (raised (network m)) = IsIdle-stop core keys
      after_judge-IsIdle core (raised (network_from f)) = IsIdle-stop core keys
      after_judge-IsIdle core (raised (auth m)) = IsIdle-stop core keys
      after_judge-IsIdle core (raised (authz m)) = IsIdle-stop core keys
      after_judge-IsIdle core (raised (other m)) = IsIdle-stop core keys

      judge_entry-IsIdle :
          (core : Core) (v : Value) → IsIdle s t (judge_entry u asks next e keys core s (some t) v)
      unfolding judge_entry
      judge_entry-IsIdle core (str token) =
          let judged = judge_set u e.world token (some e.jti) core in
          after_judge-IsIdle judged.0 judged.1
      judge_entry-IsIdle core null = IsIdle-refused e.jti malformed _ (rest_idle core)
      judge_entry-IsIdle core (bool b) = IsIdle-refused e.jti malformed _ (rest_idle core)
      judge_entry-IsIdle core (int n) = IsIdle-refused e.jti malformed _ (rest_idle core)
      judge_entry-IsIdle core (float x) = IsIdle-refused e.jti malformed _ (rest_idle core)
      judge_entry-IsIdle core (arr xs) = IsIdle-refused e.jti malformed _ (rest_idle core)
      judge_entry-IsIdle core (obj d) = IsIdle-refused e.jti malformed _ (rest_idle core)

module _ (u : Setup) {S : Type 0} (asks : Asks S) where
  -- Once a failure that is no verdict stopped the recording, the rest of a batch ends with a result,
  -- carries that first failure, and leaves the store as it is.
  pub poll_sets-IsIdle :
      (es : List Entry) (core : Core) (s : S) (t : Failure × Category)
      → IsIdle s t (poll_sets u asks es core s (some t))
  unfolding poll_sets
  poll_sets-IsIdle [] core s t = IsIdle-stop s t core []
  poll_sets-IsIdle (e ∷ es) core s t =
      judge_entry-IsIdle s t u asks (poll_sets u asks es) (λ core'. poll_sets-IsIdle es core' s t) e
        (keys_of (e ∷ es)) core e.set
