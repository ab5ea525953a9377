-- ===== src/Manifest/Engine/Stops.antt =====
-- An apply runs step by step and stops at the first failure.
use axiam_python_sdk.Base.{
  ◌≡◌, refl, sym, ap, ◌∙◌, Bool, true, false, not, List, [], ◌∷◌, ◌++◌, map, arith, if◌then◌else◌,
}
use axiam_python_sdk.Manifest.Plan.{
  PlannedAction, conflict, missing, error, is_failed, not_attempted, outcome, AppliedStep, failure,
  is_complete,
}
use axiam_python_sdk.Manifest.Engine.{
  Resolved, Work, Step, Server, Ran, done, raised, rebind_failed, status_of, outcome_of,
}
use axiam_python_sdk.Manifest.Engine.Running.{
  run, Applied, stops, report, turn, execute_from, execute,
}

-- The report of a step that was not run.
abbrev pub unattempted : PlannedAction × Step → AppliedStep
unattempted (action, step) = record { action = action; outcome = outcome not_attempted }

outcome_failed :
    (work : Work) (ended : Ran) → is_failed (outcome_of work ended).status ≡ stops ended
unfolding outcome_of status_of
outcome_failed work (done secret) = ground arith
outcome_failed work (raised (conflict m r)) = refl
outcome_failed work (raised (missing k)) = refl
outcome_failed work (raised (error m)) = refl
outcome_failed work (rebind_failed e again) = refl

complete_cons :
    (s : AppliedStep) (steps : List AppliedStep)
    → is_complete (s ∷ steps) ≡ (if is_failed s.outcome.status then false else is_complete steps)
unfolding is_complete failure
complete_cons s steps = ground arith

nothing_failed : is_complete [] ≡ true
unfolding is_complete failure
nothing_failed = refl

-- The steps of one run, then those of another, which goes on where the first ends.
abbrev pub followed_by : {S : Type 0} → Applied S → Applied S → Applied S
followed_by first rest = record rest { steps = first.steps ++ rest.steps }

module _ {S : Type 0} (server : Server S) where
  execute_from-append :
      (stopped : Bool) (xs ys : List (PlannedAction × Step)) (r : Resolved) (s : S)
      → execute_from server stopped (xs ++ ys) r s
        ≡ followed_by (execute_from server stopped xs r s) (
            execute_from server
              (execute_from server stopped xs r s).stopped
              ys
              (execute_from server stopped xs r s).resolved
              (execute_from server stopped xs r s).server)
  unfolding execute_from
  execute_from-append stopped [] ys r s = refl
  execute_from-append stopped ((a, x) ∷ xs) ys r s =
      let t = turn server stopped x r s in
      ap (report _) (execute_from-append t.stopped xs ys t.resolved t.server)

  execute_from-stopped :
      (ys : List (PlannedAction × Step)) (r : Resolved) (s : S)
      → execute_from server true ys r s
        ≡ record { server = s; resolved = r; steps = map unattempted ys; stopped = true }
  unfolding execute_from turn
  execute_from-stopped [] r s = refl
  execute_from-stopped ((a, x) ∷ ys) r s = ap (report _) (execute_from-stopped ys r s)

  stopped_stays :
      (xs : List (PlannedAction × Step)) (r : Resolved) (s : S)
      → (execute_from server true xs r s).stopped ≡ true
  stopped_stays xs r s = ap (λ run. run.stopped) (execute_from-stopped xs r s)

  turn_failed :
      (x : Step) (r : Resolved) (s : S)
      → is_failed (turn server false x r s).outcome.status ≡ (turn server false x r s).stopped
  unfolding turn
  turn_failed x r s = ground (arith, outcome_failed x.work (run server x r s).ended)

  not_again :
      (xs : List (PlannedAction × Step)) (r : Resolved) (s : S) (stopped : Bool)
      → (is_complete (execute server xs r s).steps ≡ not (execute server xs r s).stopped)
      → (if stopped then false else is_complete (execute_from server stopped xs r s).steps)
        ≡ not (execute_from server stopped xs r s).stopped
  not_again xs r s true rest = sym (ap not (stopped_stays xs r s))
  not_again xs r s false rest = rest

  execute_complete :
      (xs : List (PlannedAction × Step)) (r : Resolved) (s : S)
      → is_complete (execute server xs r s).steps ≡ not (execute server xs r s).stopped
  unfolding execute_from
  execute_complete [] r s = nothing_failed
  execute_complete ((a, x) ∷ xs) r s =
      let t = turn server false x r s in
      complete_cons _ _
      ∙ ap
          (λ b.
            if b
            then false
            else is_complete (execute_from server t.stopped xs t.resolved t.server).steps)
          (turn_failed x r s)
      ∙ not_again xs t.resolved t.server t.stopped (execute_complete xs t.resolved t.server)

  -- Steps that come after others are run after them where those all succeed, from the state and the
  -- resolved keys that they leave; where one of those fails, each of the later steps is reported as
  -- not attempted, and neither the server nor the resolved keys see them.
  pub execute-append :
      (xs ys : List (PlannedAction × Step)) (r : Resolved) (s : S)
      → (is_complete (execute server xs r s).steps ≡ true
          → execute server (xs ++ ys) r s
            ≡ followed_by
                (execute server xs r s)
                (execute server ys (execute server xs r s).resolved (execute server xs r s).server))
        × (is_complete (execute server xs r s).steps ≡ false
            → execute server (xs ++ ys) r s ≡ record (execute server xs r s) {
              steps = (execute server xs r s).steps ++ map unattempted ys;
            })
  execute-append xs ys r s =
      let first = execute server xs r s in
      (
        λ all.
            execute_from-append false xs ys r s
            ∙ ap (λ b. followed_by first (execute_from server b ys first.resolved first.server))
                (ground (arith, execute_complete xs r s)),
        λ fell.
            let halted : first.stopped ≡ true = ground (arith, execute_complete xs r s) in
            execute_from-append false xs ys r s
            ∙ ap (λ b. followed_by first (execute_from server b ys first.resolved first.server))
                halted
            ∙ ap (followed_by first) (execute_from-stopped ys first.resolved first.server)
            ∙ ap (λ b. record first { steps = first.steps ++ map unattempted ys; stopped = b })
                (sym halted),
      )
