-- ===== src/Tests/Client.antt =====
-- The retry loop, the decision memo and the refresh guard on concrete inputs.
use axiam_python_sdk.Base.{
  ℕ, ◌≡◌, ◌≢◌, ◌==◌, eq_iff, refl, Bool, true, false, none, some, List, [], ◌∷◌, arith, String, eqb,
  if◌then◌else◌, All,
}
use axiam_python_sdk.Base.Int.{pos}
use axiam_python_sdk.Retry.{Policy, value, failure, network, other, retry_after_of, retry}
use axiam_python_sdk.Retry.Loop.{Ran, retry-Ran}
use axiam_python_sdk.Retry.Waits.{IsAllowedEvent, retry-All_allowed, HintsBelow}
use axiam_python_sdk.DecisionMemo.{new_memo, recall, memoize, answer, evict}
use axiam_python_sdk.DecisionMemo.Staleness.{
  Op, set, get, run, step as memo_step, stored_by, IsCurrent, recall-IsCurrent,
}
use axiam_python_sdk.DecisionMemo.Key.{Question, IsQuestion, memo_key_inj}
use axiam_python_sdk.RefreshGuard.{
  Guard, Refreshed, should_skip_refresh, token, refresh_raised, differs,
}
use axiam_python_sdk.RefreshGuard.SingleFlight.{run_all, calls, outcomes, single_flight}
use axiam_python_sdk.RefreshGuard.Lock.{
  Phase, System, init, Reach, Quiet, here, next, call, start, step, refreshing, update,
}
use axiam_python_sdk.RefreshGuard.Exclusion.{mutual_exclusion}

text_ne : (s t : String) → (s == t) ≡ false → s ≢ t
text_ne s t h e = ground (arith, eq_iff s t, h)

-- fails once with a hint of 7 units, then gives a value
abbrev flaky : Policy ℕ
flaky = record {
  op = λ n. if eqb n 1 then failure (network (some 7) "down") else value n;
  rand = λ n. pos 500;
  deadline = none;
  telemetry = true;
}

flaky_hints : HintsBelow flaky 3_600_000_000
unfolding retry_after_of
flaky_hints n (network none reason) h = omega arith
flaky_hints n (network (some hint) reason) h = omega arith
flaky_hints n (other reason) h = omega arith

retry-Ran_example : Ran flaky 2 1 (retry flaky true)
retry-Ran_example = retry-Ran flaky true

retry-All_allowed_example : All (IsAllowedEvent flaky) (retry flaky true).1
retry-All_allowed_example = retry-All_allowed flaky true

abbrev stores : List (Op Bool × ℕ)
stores = (set "k" true, 10) ∷ (set "j" false, 15) ∷ (get "j", 16) ∷ []

recall-IsCurrent_example : IsCurrent (stored_by [] stores) "k" true 20
unfolding run memo_step memoize recall answer evict new_memo axiam_python_sdk.Dict.lookup
    axiam_python_sdk.Dict.put axiam_python_sdk.Dict.remove
recall-IsCurrent_example = recall-IsCurrent (pos 1000) stores "k" 20 true refl

abbrev asked : Question
asked = record {
  action = "a";
  resource_id = "r";
  scope = none;
  subject_id = some "u";
  acting_tenant = none;
}

asked-IsQuestion : IsQuestion asked
asked-IsQuestion = record {
  action_plain = (λ e. omega arith, tt);
  resource_plain = (λ e. omega arith, tt);
  scope_plain = tt;
  subject_plain = ((λ e. omega arith, tt), text_ne "u" "\0" refl);
  tenant_plain = tt;
}

memo_key_inj_example : asked ≡ asked
memo_key_inj_example = memo_key_inj asked asked asked-IsQuestion asked-IsQuestion refl

abbrev expired : Guard
expired = record {
  cached_access = some "old";
  cached_refresh = some "r";
  cached_exp = none;
  has_any = true;
}

abbrev renewed : Refreshed
renewed = record { access = some "new"; refresh = none; exp = none }

single_flight_example :
    (calls (run_all (some "old") (none ∷ some renewed ∷ none ∷ []) expired) ≡ 2)
    × (outcomes (run_all (some "old") (none ∷ some renewed ∷ none ∷ []) expired)
        ≡ refresh_raised ∷ token "new" ∷ token "new" ∷ [])
single_flight_example =
    single_flight "old" "new" (text_ne "new" "old" refl) 1 renewed (none ∷ []) expired refl refl

-- thread 7 called and refreshes
abbrev busy : System
busy = record (init expired) {
  lock = some 7;
  phase =
      update (update (λ t. Phase.idle) 7 (Phase.waiting (some "old"))) 7 (refreshing (some "old"));
}

busy-Quiet : Quiet (init expired) busy
unfolding should_skip_refresh differs
busy-Quiet = next (next here (call 7 (some "old") refl)) (start 7 (some "old") refl refl refl)

busy-Reach : Reach (init expired) busy
unfolding should_skip_refresh differs
busy-Reach =
    next (next here (step (call 7 (some "old") refl))) (step (start 7 (some "old") refl refl refl))

mutual_exclusion_example : ◌≡◌ {A = ℕ} 7 7
mutual_exclusion_example = mutual_exclusion expired busy 7 7 busy-Reach tt tt
