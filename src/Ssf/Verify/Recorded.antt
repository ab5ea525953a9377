-- ===== src/Ssf/Verify/Recorded.antt =====
-- What verify_set of src/axiam_sdk/ssf/_receiver.py asks of the replay store.
use axiam_python_sdk.Base.{
  String, ◌≡◌, ◌↔◌, ◌⊎◌, inl, inr, refl, Option, none, some, eq_iff, arith, ◌∙◌, ap, subst,
}
use axiam_python_sdk.Json.{Fields}
use axiam_python_sdk.Ssf.{Result, ok, raised, SecurityEvent, Failure}
use axiam_python_sdk.Ssf.Parse.{Parsed, parse}
use axiam_python_sdk.Ssf.Keys.{Core}
use axiam_python_sdk.Ssf.KeyLookup.{key_for}
use axiam_python_sdk.Ssf.Judge.{expects}
use axiam_python_sdk.Ssf.Judge.Sound.{Passes, judge_iff}
use axiam_python_sdk.Ssf.Store.{Answer, fresh, held, cannot, Asks, settle}
use axiam_python_sdk.Ssf.Verify.{Setup, World, judge_set, verify_set}

pub Result-cases :
    {A : Type 0} (r : Result A) → ((a : A) × (r ≡ ok a)) ⊎ ((f : Failure) × (r ≡ raised f))
Result-cases (ok a) = inl (a, refl)
Result-cases (raised f) = inr (f, refl)

-- The failures that a store raises are no answer.
settle-fresh : (e e' : SecurityEvent) (a : Answer) → settle e a ≡ ok e' → (a ≡ fresh) × (e ≡ e')
unfolding settle
settle-fresh e e' fresh h = (refl, ground (arith, h))
settle-fresh e e' held h = absurd (ground (arith, h))
settle-fresh e e' (cannot f) h = absurd (ground (arith, h))

module _ (u : Setup) (w : World) (token : String) where
  -- The parts of a verification that is good.
  pub record Judged (expected : Option String) (core : Core) (e : SecurityEvent) : Type 0 where
    pub parsed : Parsed
    pub parses : parse u.rt token ≡ ok parsed
    pub found : Option Fields
    pub looked_up : (key_for u.web w.clock w.http parsed.kid core).answer ≡ ok found
    pub passes : Passes u.web.jose u.cfg parsed found expected e

  judge_set-Judged :
      (expected : Option String) (core : Core) (e : SecurityEvent)
      → (judge_set u w token expected core).1 ≡ ok e
      → Judged expected core e
  unfolding judge_set
  judge_set-Judged expected core e h = elim (Result-cases (parse u.rt token)) [
    | inr (f, bad) ↦ absurd (ground (arith, bad))
    | inl (parsed, parses) ↦
        let p = key_for u.web w.clock w.http parsed.kid core in
        elim (Result-cases p.answer) [
          | inr (f, bad) ↦ absurd (ground (arith, parses, bad))
          | inl (found, answered) ↦ record {
            parsed = parsed;
            parses = parses;
            found = found;
            looked_up = answered;
            passes =
                (judge_iff u.web.jose u.cfg parsed found expected e).0
                  (ground (arith, parses, answered));
          }
        ]
  ]

  Judged-judge_set :
      (expected : Option String) (core : Core) (e : SecurityEvent)
      → Judged expected core e
      → (judge_set u w token expected core).1 ≡ ok e
  unfolding judge_set
  Judged-judge_set expected core e j =
      let good = (judge_iff u.web.jose u.cfg j.parsed j.found expected e).1 j.passes in
      rw (j.parses, j.looked_up) good

  -- The key of the poll's map is the `jti` of the event.
  pub judge_set-jti :
      (key : String) (core : Core) (e : SecurityEvent)
      → (judge_set u w token (some key) core).1 ≡ ok e
      → key ≡ e.jti
  unfolding expects
  judge_set-jti key core e h =
      (eq_iff key e.jti).0 ((judge_set-Judged (some key) core e h).passes.claims.poll_key)

  module _ {S : Type 0} (asks : Asks S) (core : Core) (s : S) where
    verify_set-fresh :
        (e : SecurityEvent)
        → (verify_set u asks w token (core, s)).1 ≡ ok e
        → Judged none core e × ((asks e.jti s).1 ≡ fresh)
    unfolding verify_set settle
    verify_set-fresh e h = elim (Result-cases ((judge_set u w token none core).1)) [
      | inr (f, bad) ↦ absurd (ground (arith, bad))
      | inl (e', good) ↦
          let same = settle-fresh e' e (asks e'.jti s).1 (rw (good) at h) in
          (
            judge_set-Judged none core e (good ∙ ap ok same.1),
            subst (λ x. (asks x.jti s).1 ≡ fresh) same.1 same.0,
          )
    ]

    fresh-verify_set :
        (e : SecurityEvent)
        → Judged none core e × ((asks e.jti s).1 ≡ fresh)
        → (verify_set u asks w token (core, s)).1 ≡ ok e
    unfolding verify_set settle
    fresh-verify_set e (j, new) = rw (Judged-judge_set none core e j) (rw (new) refl)

    -- A token is verified, with an event, exactly when it parses, the key lookup succeeds, the
    -- judgement of steps 5 to 8 passes with this event, and the store answers that its `jti` is new.
    pub verify_set_iff :
        (e : SecurityEvent)
        → ((verify_set u asks w token (core, s)).1 ≡ ok e)
          ↔ (Judged none core e × ((asks e.jti s).1 ≡ fresh))
    verify_set_iff e = (verify_set-fresh e, fresh-verify_set e)

    -- A token that fails one of the steps 1 to 8 leaves the replay store as it was, and the failure
    -- is the one of that step.
    pub verify_set-refused :
        (failure : Failure)
        → (judge_set u w token none core).1 ≡ raised failure
        → ((verify_set u asks w token (core, s)).0.1 ≡ s)
          × ((verify_set u asks w token (core, s)).1 ≡ raised failure)
    unfolding verify_set
    verify_set-refused failure h = ground (arith, h)
