-- ===== src/Ssf/Polling/Outcome.antt =====
-- What a whole poll returns, against the reply that it was sent.
use axiam_python_sdk.Base.{
  String, ◌≡◌, ap, Bool, true, false, inr, Option, List, [], ◌∷◌, map, arith,
}
use axiam_python_sdk.Json.{Value}
use axiam_python_sdk.Retry.{value, called, status_is_retryable}
use axiam_python_sdk.Retry.Loop.{retry_value}
use axiam_python_sdk.Ssf.{ok}
use axiam_python_sdk.Ssf.Keys.{Response, Core, is_success}
use axiam_python_sdk.Ssf.Store.{Asks}
use axiam_python_sdk.Ssf.Verify.{Setup}
use axiam_python_sdk.Ssf.Poll.Partition.{Split}
use axiam_python_sdk.Ssf.Polling.{
  answered, PollWorld, policy, outcome_of, poll_reply, PollResult, fails_with, after_request, poll,
}

decided :
    (w : PollWorld) (r : Response)
    → w.answer 1 ≡ answered r
    → is_success r ≡ false
    → status_is_retryable r.status ≡ false
    → (policy w).op 1 ≡ value (inr (w.poll_error r))
unfolding policy
decided w r first failing decisive = ground (arith, first, failing, decisive)

module _ (u : Setup) {S : Type 0} (asks : Asks S) where
  -- The keys of a reply, split as a result reports them.
  pub record Reported (reply : Option Value) (result : PollResult) : Type 0 where
    pub pairs : List (String × Value)
    pub read : poll_reply reply ≡ ok (pairs, result.more_available)
    pub split :
        Split
          (map (λ p. p.0) pairs)
          result.collected.events
          result.collected.refused
          result.collected.unjudged

  -- A first answer that is neither a success nor retryable ends a poll: it is the only request, its
  -- error is raised, and neither the keys nor the store are touched.
  pub poll_decisive :
      (w : PollWorld) (retries : Bool) (core : Core) (s : S) (r : Response)
      → w.answer 1 ≡ answered r
      → is_success r ≡ false
      → status_is_retryable r.status ≡ false
      → poll u asks w retries true core s
        ≡ fails_with u asks core s (called 1 ∷ []) (w.poll_error r)
  unfolding poll after_request
  poll_decisive w retries core s r first failing decisive =
      ap (λ run. after_request u asks w core s run.1 (outcome_of run.0))
        (retry_value (policy w) retries (inr (w.poll_error r)) (decided w r first failing decisive))
