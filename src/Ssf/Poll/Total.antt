-- ===== src/Ssf/Poll/Total.antt =====
-- When a batch of SsfReceiver.poll ends with a result.
use axiam_python_sdk.Base.{String, ◌≡◌, refl, ap, none, some, List, [], ◌∷◌}
use axiam_python_sdk.Json.{Value, null, bool, int, float, str, arr, obj}
use axiam_python_sdk.Ssf.{
  Failure, FailureReason, refusal, network, network_from, auth, authz, other, Result, ok, raised,
  malformed, replayed, SecurityEvent,
}
use axiam_python_sdk.Ssf.Keys.{Core}
use axiam_python_sdk.Ssf.Store.{Answer, fresh, held, cannot, Asks, settle, store_failure}
use axiam_python_sdk.Ssf.Verify.{Setup, judge_set}
use axiam_python_sdk.Ssf.Poll.{
  Entry, Trouble, Collected, Batch, keys_of, changed, add_event, add_refused, add_unjudged,
  after_failure, after_record, after_judgement, after_judge, judge_entry, poll_sets,
}

-- The failures of a store that leave the poll: the SDK's own authentication and authorization errors.
abbrev pub Escapes : Failure → Type 0
Escapes (auth message) = Unit
Escapes (authz message) = Unit
Escapes _ = ⊥

-- A batch that ended with a result.
abbrev pub EndsOk : {S : Type 0} → Batch S → Type 0
EndsOk b = (c : Collected) × (b.ended ≡ ok c)

module _ {S : Type 0} (next : Core → S → Trouble → Batch S)
    (rest_ends : (core : Core) (s : S) (t : Trouble) → EndsOk (next core s t)) where
  ends_event :
      (e : SecurityEvent) (core : Core) (s : S) (t : Trouble) → EndsOk (add_event e (next core s t))
  ends_event e core s t =
      let (c, ends) = rest_ends core s t in
      (
        record c { events = e ∷ c.events },
        ap (changed (λ c. record c { events = e ∷ c.events })) ends,
      )

  ends_refused :
      (jti : String) (reason : FailureReason) (core : Core) (s : S) (t : Trouble)
      → EndsOk (add_refused jti reason (next core s t))
  ends_refused jti reason core s t =
      let (c, ends) = rest_ends core s t in
      (
        record c { refused = (record { jti = jti; reason = reason }) ∷ c.refused },
        ap
            (changed
              (λ c. record c { refused = (record { jti = jti; reason = reason }) ∷ c.refused }))
            ends,
      )

  ends_unjudged :
      (jti : String) (core : Core) (s : S) (t : Trouble) → EndsOk (add_unjudged jti (next core s t))
  ends_unjudged jti core s t =
      let (c, ends) = rest_ends core s t in
      (
        record c { unjudged = jti ∷ c.unjudged },
        ap (changed (λ c. record c { unjudged = jti ∷ c.unjudged })) ends,
      )

  module _ (core : Core) (e : SecurityEvent) (jti : String) (s : S) where
    ends_after_store_failure :
        (f : Failure) → (Escapes f → ⊥) → EndsOk (after_failure next core jti s (store_failure f))
    unfolding after_failure store_failure
    ends_after_store_failure (refusal reason) never = ends_unjudged jti core s _
    ends_after_store_failure (network m) never = ends_unjudged jti core s _
    ends_after_store_failure (network_from f) never = ends_unjudged jti core s _
    ends_after_store_failure (other m) never = ends_unjudged jti core s _
    ends_after_store_failure (auth m) never = absurd (never tt)
    ends_after_store_failure (authz m) never = absurd (never tt)

    ends_after_answer :
        (a : Answer)
        → ((f : Failure) → a ≡ cannot f → Escapes f → ⊥)
        → EndsOk (after_record next core jti s (settle e a))
    unfolding after_record settle after_failure
    ends_after_answer fresh never = ends_event e core s none
    ends_after_answer held never = ends_refused jti replayed core s none
    ends_after_answer (cannot f) never = ends_after_store_failure f (never f refl)

  module _ (u : Setup) (asks : Asks S)
      (mild : (jti : String) (s : S) (f : Failure) → (asks jti s).1 ≡ cannot f → Escapes f → ⊥)
      (e : Entry) (keys : List String) where
    ends_judgement :
        (core : Core) (ev : SecurityEvent) (s : S) (t : Trouble)
        → EndsOk (after_judgement next core asks e.jti ev s t)
    unfolding after_judgement
    ends_judgement core ev s (some t) = ends_unjudged e.jti core s (some t)
    ends_judgement core ev s none =
        ends_after_answer core ev e.jti (asks ev.jti s).0 (asks ev.jti s).1 (mild ev.jti s)

    ends_judge :
        (s : S) (t : Trouble) (core : Core) (r : Result SecurityEvent)
        → EndsOk (after_judge u asks next e keys s t (core, r))
    unfolding after_judge
    ends_judge s t core (ok ev) = ends_judgement core ev s t
    ends_judge s t core (raised (refusal reason)) = ends_refused e.jti reason core s t
    ends_judge s t core (raised (network m)) = (_, refl)
    ends_judge s t core (raised (network_from f)) = (_, refl)
    ends_judge s t core (raised (auth m)) = (_, refl)
    ends_judge s t core (raised (authz m)) = (_, refl)
    ends_judge s t core (raised (other m)) = (_, refl)

    ends_entry :
        (core : Core) (s : S) (t : Trouble) (v : Value)
        → EndsOk (judge_entry u asks next e keys core s t v)
    unfolding judge_entry
    ends_entry core s t (str token) =
        let judged = judge_set u e.world token (some e.jti) core in ends_judge s t judged.0 judged.1
    ends_entry core s t null = ends_refused e.jti malformed core s t
    ends_entry core s t (bool b) = ends_refused e.jti malformed core s t
    ends_entry core s t (int n) = ends_refused e.jti malformed core s t
    ends_entry core s t (float x) = ends_refused e.jti malformed core s t
    ends_entry core s t (arr xs) = ends_refused e.jti malformed core s t
    ends_entry core s t (obj d) = ends_refused e.jti malformed core s t

module _ (u : Setup) {S : Type 0} (asks : Asks S)
    (mild : (jti : String) (s : S) (f : Failure) → (asks jti s).1 ≡ cannot f → Escapes f → ⊥) where
  -- A batch ends with a result, whatever its tokens are and whether the keys can be fetched, unless
  -- the replay store raises an AuthError or an AuthzError of the SDK.
  pub poll_sets-EndsOk :
      (es : List Entry) (core : Core) (s : S) (t : Trouble) → EndsOk (poll_sets u asks es core s t)
  unfolding poll_sets
  poll_sets-EndsOk [] core s t = (_, refl)
  poll_sets-EndsOk (e ∷ es) core s t =
      ends_entry (poll_sets u asks es) (poll_sets-EndsOk es) u asks mild e (keys_of (e ∷ es)) core s
        t e.set
