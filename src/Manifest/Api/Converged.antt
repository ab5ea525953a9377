-- ===== src/Manifest/Api/Converged.antt =====
-- What apply does with a plan that changes nothing.
use axiam_python_sdk.Base.{
  ℕ, String, ◌≡◌, refl, sym, ap, subst, ◌∙◌, Bool, true, false, Option, none, some, List, [], ◌∷◌,
  map, arith, All, All-append,
}
use axiam_python_sdk.Json.{Value, Fields}
use axiam_python_sdk.Manifest.{ManagementManifest}
use axiam_python_sdk.Manifest.Validate.{Problem}
use axiam_python_sdk.Manifest.Models.{Snapshot}
use axiam_python_sdk.Manifest.Plan.{
  PlannedAction, is_no_change, changes, is_converged, unchanged, outcome, AppliedStep,
  changed_count,
}
use axiam_python_sdk.Manifest.Engine.{Resolved, Step, Reply, accepted, refused, Server}
use axiam_python_sdk.Manifest.Engine.Running.{is_noop, report, turn, execute_from, execute}
use axiam_python_sdk.Manifest.Compute.{Planned, Computed, computed, unknown_resource, no_order}
use axiam_python_sdk.Manifest.Compute.Arranged.{Marked, At}
use axiam_python_sdk.Manifest.Compute.Ascending.{Ascending, Laid, compute-Laid}
use axiam_python_sdk.Manifest.Compute.Parts.{compute}
use axiam_python_sdk.Manifest.Api.{
  Prepared, ready, rejected, check_passwords, check_computed, check_accounts, missing_passwords,
  after_read, after_validate, prepare, Plan, planned, unplanned, plan_of, Report, reported,
  unapplied, plan, carry_out, apply,
}

At-Marked : (n : ℕ) (xs : List Planned) → All (At n) xs → All Marked xs
At-Marked n [] all = tt
At-Marked n (x ∷ xs) (here, all) = (here.0, At-Marked n xs all)

Ascending-Marked : (n : ℕ) (xs : List Planned) → Ascending n xs → All Marked xs
Ascending-Marked n [] a = tt
Ascending-Marked n (x ∷ xs) (marked, from, a) = (marked, Ascending-Marked _ xs a)

Laid-Marked : (keys : List String) (steps : List Planned) → Laid keys steps → All Marked steps
Laid-Marked keys steps l = subst (All Marked) (sym l.split) (
    All-append Marked l.first l.rest (At-Marked 0 l.first l.resources)
      (Ascending-Marked 1 l.rest l.others))

-- The report of a step that does nothing.
abbrev pub untouched : Planned → AppliedStep
untouched (action, step) = record { action = action; outcome = outcome unchanged }

converged_head :
    (a : PlannedAction) (actions : List PlannedAction)
    → is_converged (a ∷ actions) ≡ true
    → (is_no_change a.change ≡ true) × (is_converged actions ≡ true)
unfolding is_converged changes
converged_head a actions h = (ground arith, ground arith)

changed_count-untouched : (steps : List Planned) → changed_count (map untouched steps) ≡ 0
unfolding changed_count
changed_count-untouched [] = refl
changed_count-untouched (x ∷ xs) = changed_count-untouched xs

module _ {S : Type 0} (server : Server S) where
  turn-noop :
      (step : Step) (r : Resolved) (s : S)
      → is_noop step.work ≡ true
      → turn server false step r s
        ≡ record { outcome = outcome unchanged; stopped = false; resolved = r; server = s }
  unfolding turn
  turn-noop step r s idle = ground arith

  execute-converged :
      (steps : List Planned) (r : Resolved) (s : S)
      → All Marked steps
      → is_converged (map (λ p. p.0) steps) ≡ true
      → execute server steps r s
        ≡ record { server = s; resolved = r; steps = map untouched steps; stopped = false }
  unfolding execute_from
  execute-converged [] r s marked same = refl
  execute-converged ((a, x) ∷ xs) r s ((marks, named), marked) same =
      let (head, tail) = converged_head a (map (λ p. p.0) xs) same in
      ap
        (λ t.
          report (record { action = a; outcome = t.outcome })
            (execute_from server t.stopped xs t.resolved t.server))
        (turn-noop x r s (sym marks ∙ head))
      ∙ ap (report _) (execute-converged xs r s marked tail)

abbrev actions_of : Plan → List PlannedAction
actions_of (planned actions) = actions
actions_of (unplanned refusal) = []

map-untouched :
    (steps : List Planned) → map (λ step. step.action) (map untouched steps) ≡ map (λ p. p.0) steps
map-untouched [] = refl
map-untouched ((a, x) ∷ xs) = ap (λ rest. a ∷ rest) (map-untouched xs)

abbrev Ready : Prepared → Type 0
Ready (ready r steps) = All Marked steps
Ready (rejected refusal) = Unit

passwords-Ready :
    (r : Resolved) (steps : List Planned) (keys : List String)
    → All Marked steps
    → Ready (check_passwords r steps keys)
passwords-Ready r steps [] marked = marked
passwords-Ready r steps (key ∷ keys) marked = tt

computed-Ready :
    (c : Computed)
    → ((r : Resolved) (steps : List Planned) → c ≡ computed (r, steps) → All Marked steps)
    → Ready (check_computed c)
computed-Ready (computed (r, steps)) marked =
    passwords-Ready r steps (missing_passwords steps) (marked r steps refl)
computed-Ready (unknown_resource k) marked = tt
computed-Ready (no_order o) marked = tt

accounts-Ready :
    (problems : List (String × String × ℕ)) (c : Computed)
    → Ready (check_computed c)
    → Ready (check_accounts problems c)
accounts-Ready [] c rest = rest
accounts-Ready (problem ∷ problems) c rest = tt

module _ {S : Type 0} (same_metadata : Value → Fields → Bool) (read : S → S × Reply Snapshot) where
  read-Ready :
      (m : ManagementManifest) (no_network : m.network ≡ none) (answer : S × Reply Snapshot)
      → Ready (after_read same_metadata read m no_network answer).1
  read-Ready m no_network (s, refused e) = tt
  read-Ready m no_network (s, accepted snapshot) =
      accounts-Ready _ (compute snapshot same_metadata m no_network) (
        computed-Ready (compute snapshot same_metadata m no_network) (λ r steps e.
          let (order, found, sorted, laid) =
            compute-Laid same_metadata snapshot m no_network r steps e in
          Laid-Marked order steps laid))

  validate-Ready :
      (m : ManagementManifest) (no_network : m.network ≡ none) (s : S)
      (problems : Option (List Problem))
      → Ready (after_validate same_metadata read m no_network s problems).1
  validate-Ready m no_network s (some problems) = tt
  validate-Ready m no_network s none = read-Ready m no_network (read s)

  module _ (server : Server S) where
    -- What apply returns when the plan for the same state is converged.
    abbrev pub Untouched : S → List PlannedAction → Report S → Type 0
    Untouched s actions (reported a) =
        (a.server ≡ s)
        × (map (λ step. step.action) a.steps ≡ actions)
        × (changed_count a.steps ≡ 0)
        × (a.stopped ≡ false)
    Untouched s actions (unapplied after refusal) = ⊥

    carry_out-Untouched :
        (prepared : S × Prepared) (actions : List PlannedAction)
        → Ready prepared.1
        → plan_of prepared.1 ≡ planned actions
        → is_converged actions ≡ true
        → Untouched prepared.0 actions (carry_out same_metadata read server prepared)
    carry_out-Untouched (s, ready r steps) actions marked planned_as same =
        let listed : map (λ p. p.0) steps ≡ actions = ap actions_of planned_as in
        subst (λ a. Untouched s actions (reported a))
          (sym (execute-converged server steps r s marked (ap is_converged listed ∙ same)))
          (refl, map-untouched steps ∙ listed, changed_count-untouched steps, refl)
    carry_out-Untouched (s, rejected refusal) actions marked planned_as same = absurd (ground arith)

    -- When the plan of a manifest without a network section is converged, apply on the same state
    -- makes no write: the server is left as the reads of the plan leave it, each action is reported in
    -- order, none as a change, and the apply does not stop.
    pub apply-converged :
        (m : ManagementManifest) (no_network : m.network ≡ none) (s : S)
        (actions : List PlannedAction)
        → (plan same_metadata read m no_network s).1 ≡ planned actions
        → is_converged actions ≡ true
        → Untouched
            (plan same_metadata read m no_network s).0
            actions
            (apply same_metadata read server m no_network s)
    unfolding plan apply prepare
    apply-converged m no_network s actions planned_as same =
        carry_out-Untouched _ actions (validate-Ready m no_network s _) planned_as same
