-- ===== src/Ssf/Poll/Partition.antt =====
-- Where each entry of a batch of SsfReceiver.poll ends up.
use mathlib.Core.List.{append-nil, append_assoc}
use axiam_python_sdk.Base.{String, ◌≡◌, refl, sym, ap, subst, none, some, ◌∙◌, List, [], ◌∷◌, ◌++◌}
use axiam_python_sdk.Json.{Value, null, bool, int, float, str, arr, obj}
use axiam_python_sdk.Ssf.{
  Failure, FailureReason, refusal, network, network_from, auth, authz, other, Result, ok, raised,
  malformed, replayed, SecurityEvent, RefusedSet,
}
use axiam_python_sdk.Ssf.Keys.{Core}
use axiam_python_sdk.Ssf.Store.{
  Answer, fresh, held, cannot, Asks, settle, store_failure, noted, logged,
}
use axiam_python_sdk.Ssf.Verify.{Setup}
use axiam_python_sdk.Ssf.Verify.Recorded.{judge_set-jti}
use axiam_python_sdk.Ssf.Poll.Logged.{poll_sets-unlogged}
use axiam_python_sdk.Ssf.Poll.{
  Entry, Trouble, Collected, Batch, keys_of, changed, after_failure, after_record, after_judgement,
  after_judge, judge_entry, poll_sets,
}

-- The keys of a batch, each in exactly one list, and in the order of the reply.
pub data Split : List String → List SecurityEvent → List RefusedSet → List String → Type 0 where
  rest : (keys : List String) → Split keys [] [] keys
  event :
      {keys : List String} {es : List SecurityEvent} {rs : List RefusedSet} {us : List String}
      (e : SecurityEvent)
      → Split keys es rs us
      → Split (e.jti ∷ keys) (e ∷ es) rs us
  refuse :
      {keys : List String} {es : List SecurityEvent} {rs : List RefusedSet} {us : List String}
      (r : RefusedSet)
      → Split keys es rs us
      → Split (r.jti ∷ keys) es (r ∷ rs) us
  unjudge :
      {keys : List String} {es : List SecurityEvent} {rs : List RefusedSet} {us : List String}
      (key : String)
      → Split keys es rs us
      → Split (key ∷ keys) es rs (key ∷ us)

abbrev pub jtis : List SecurityEvent → List String
jtis [] = []
jtis (e ∷ es) = e.jti ∷ jtis es

-- The split of the keys, and the ids that the store has noted: those of before and the events'.
abbrev Sorted : List String → List String → List String → Result Collected → Type 0
Sorted keys before after (raised e) = Unit
Sorted keys before after (ok c) =
    Split keys c.events c.refused c.unjudged × (after ≡ before ++ jtis c.events)

Sorted-event :
    (keys before after : List String) (e : SecurityEvent) (r : Result Collected)
    → Sorted keys (before ++ e.jti ∷ []) after r
    → Sorted (e.jti ∷ keys) before after (changed (λ c. record c { events = e ∷ c.events }) r)
Sorted-event keys before after e (raised f) s = tt
Sorted-event keys before after e (ok c) (s, same) =
    (event e s, same ∙ append_assoc before (e.jti ∷ []) (jtis c.events))

Sorted-refused :
    (keys before after : List String) (jti : String) (reason : FailureReason) (r : Result Collected)
    → Sorted keys before after r
    → Sorted (jti ∷ keys) before after (
        changed (λ c. record c { refused = (record { jti = jti; reason = reason }) ∷ c.refused }) r)
Sorted-refused keys before after jti reason (raised f) s = tt
Sorted-refused keys before after jti reason (ok c) (s, same) =
    (refuse (record { jti = jti; reason = reason }) s, same)

Sorted-unjudged :
    (keys before after : List String) (jti : String) (r : Result Collected)
    → Sorted keys before after r
    → Sorted (jti ∷ keys) before after (changed (λ c. record c { unjudged = jti ∷ c.unjudged }) r)
Sorted-unjudged keys before after jti (raised f) s = tt
Sorted-unjudged keys before after jti (ok c) (s, same) = (unjudge jti s, same)

module _ {S : Type 0} where
  abbrev SortedBatch : List String → S × List String → Batch (S × List String) → Type 0
  SortedBatch keys s b = Sorted keys s.1 b.store.1 b.ended

  nothing_new :
      (keys : List String) (s : S × List String)
      → Sorted keys s.1 s.1
          (ok (record { events = []; refused = []; unjudged = keys; trouble = none }))
  nothing_new keys s = (rest keys, sym (append-nil s.1))

  module _ (keys : List String) (next : Core → S × List String → Trouble → Batch (S × List String))
      (rest_sorted : (core : Core) (s : S × List String) (t : Trouble)
        → SortedBatch keys s (next core s t)) where
    after_failure-Sorted :
        (core : Core) (jti : String) (s : S × List String) (f : Failure)
        → SortedBatch (jti ∷ keys) s (after_failure next core jti s f)
    unfolding after_failure
    after_failure-Sorted core jti s (refusal reason) =
        Sorted-refused keys _ _ jti reason _ (rest_sorted core s none)
    after_failure-Sorted core jti s (network m) =
        Sorted-unjudged keys _ _ jti _ (rest_sorted core s _)
    after_failure-Sorted core jti s (network_from f) =
        Sorted-unjudged keys _ _ jti _ (rest_sorted core s _)
    after_failure-Sorted core jti s (auth m) = tt
    after_failure-Sorted core jti s (authz m) = tt
    after_failure-Sorted core jti s (other m) = tt

    after_answer-Sorted :
        (core : Core) (e : SecurityEvent) (s : S) (ids : List String) (a : Answer)
        → SortedBatch
            (e.jti ∷ keys)
            (s, ids)
            (after_record next core e.jti (s, noted a e.jti ids) (settle e a))
    unfolding after_record settle
    after_answer-Sorted core e s ids fresh = Sorted-event keys ids _ e _ (rest_sorted core _ none)
    after_answer-Sorted core e s ids held =
        after_failure-Sorted core e.jti (s, ids) (refusal replayed)
    after_answer-Sorted core e s ids (cannot f) =
        after_failure-Sorted core e.jti (s, ids) (store_failure f)

    -- the answer is the store's, before the call and after it
    after_asked-Sorted :
        (core : Core) (e : SecurityEvent) (before : S) (ids : List String) (asked : S × Answer)
        → SortedBatch
            (e.jti ∷ keys)
            (before, ids)
            (after_record next core e.jti (asked.0, noted asked.1 e.jti ids) (settle e asked.1))
    after_asked-Sorted core e before ids (s, a) = after_answer-Sorted core e s ids a

    after_judgement-Sorted :
        (core : Core) (asks : Asks S) (e : SecurityEvent) (s : S × List String) (t : Trouble)
        → SortedBatch (e.jti ∷ keys) s (after_judgement next core (logged asks) e.jti e s t)
    unfolding after_judgement
    after_judgement-Sorted core asks e s (some t) =
        Sorted-unjudged keys _ _ e.jti _ (rest_sorted core s _)
    after_judgement-Sorted core asks e (s, ids) none =
        after_asked-Sorted core e s ids (asks e.jti s)

    module _ (u : Setup) (asks : Asks S) (e : Entry) where
      after_judge-Sorted :
          (s : S × List String) (t : Trouble) (core : Core) (r : Result SecurityEvent)
          → ((event : SecurityEvent) → r ≡ ok event → e.jti ≡ event.jti)
          → SortedBatch
              (e.jti ∷ keys)
              s
              (after_judge u (logged asks) next e (e.jti ∷ keys) s t (core, r))
      unfolding after_judge
      after_judge-Sorted s t core (ok ev) same =
          subst (λ k. SortedBatch (k ∷ keys) s (after_judgement next core (logged asks) k ev s t))
            (sym (same ev refl)) (after_judgement-Sorted core asks ev s t)
      after_judge-Sorted s t core (raised (refusal reason)) same =
          Sorted-refused keys _ _ e.jti reason _ (rest_sorted core s t)
      after_judge-Sorted s t core (raised (network m)) same = nothing_new (e.jti ∷ keys) s
      after_judge-Sorted s t core (raised (network_from f)) same = nothing_new (e.jti ∷ keys) s
      after_judge-Sorted s t core (raised (auth m)) same = nothing_new (e.jti ∷ keys) s
      after_judge-Sorted s t core (raised (authz m)) same = nothing_new (e.jti ∷ keys) s
      after_judge-Sorted s t core (raised (other m)) same = nothing_new (e.jti ∷ keys) s

      judge_entry-Sorted :
          (core : Core) (s : S × List String) (t : Trouble) (v : Value)
          → SortedBatch
              (e.jti ∷ keys)
              s
              (judge_entry u (logged asks) next e (e.jti ∷ keys) core s t v)
      unfolding judge_entry
      judge_entry-Sorted core s t (str token) =
          after_judge-Sorted s t _ _ (λ ev good. judge_set-jti u e.world token e.jti core ev good)
      judge_entry-Sorted core s t null =
          Sorted-refused keys _ _ e.jti malformed _ (rest_sorted core s t)
      judge_entry-Sorted core s t (bool b) =
          Sorted-refused keys _ _ e.jti malformed _ (rest_sorted core s t)
      judge_entry-Sorted core s t (int n) =
          Sorted-refused keys _ _ e.jti malformed _ (rest_sorted core s t)
      judge_entry-Sorted core s t (float x) =
          Sorted-refused keys _ _ e.jti malformed _ (rest_sorted core s t)
      judge_entry-Sorted core s t (arr xs) =
          Sorted-refused keys _ _ e.jti malformed _ (rest_sorted core s t)
      judge_entry-Sorted core s t (obj d) =
          Sorted-refused keys _ _ e.jti malformed _ (rest_sorted core s t)

module _ (u : Setup) {S : Type 0} (asks : Asks S) where
  poll_sets-Sorted :
      (es : List Entry) (core : Core) (s : S × List String) (t : Trouble)
      → SortedBatch (keys_of es) s (poll_sets u (logged asks) es core s t)
  unfolding poll_sets
  poll_sets-Sorted [] core s t = nothing_new [] s
  poll_sets-Sorted (e ∷ es) core s t =
      judge_entry-Sorted (keys_of es) (poll_sets u (logged asks) es) (poll_sets-Sorted es) u asks e
        core s t e.set

  -- When a batch ends with a result, each key of the reply is in exactly one of its three lists,
  -- events, refusals and unjudged ids, in the order of the reply. For any store, the ids that it
  -- answers to be new in this batch, noted beside it call by call, are exactly those of the events,
  -- in their order.
  pub poll_sets-Split :
      (es : List Entry) (core : Core) (s : S) (t : Trouble) (c : Collected)
      → (poll_sets u asks es core s t).ended ≡ ok c
      → Split (keys_of es) c.events c.refused c.unjudged
        × ((poll_sets u (logged asks) es core (s, []) t).store.1 ≡ jtis c.events)
  poll_sets-Split es core s t c h =
      subst (Sorted (keys_of es) [] (poll_sets u (logged asks) es core (s, []) t).store.1)
        (ap (λ b. b.ended) (poll_sets-unlogged u asks es core (s, []) t) ∙ h)
        (poll_sets-Sorted es core (s, []) t)
