-- ===== src/Manifest/Api.antt =====
-- ManifestApi.plan and apply of src/axiam_sdk/management/manifest/_engine.py, of a manifest without a
-- network section, with the two refusals
-- between the read and the first write. The read of the tenant's state is an argument.
pub mod Converged
use axiam_python_sdk.Base.{
  ◌≡◌, ℕ, String, Bool, true, false, Option, none, some, List, [], ◌∷◌, ◌==◌, if◌then◌else◌, map,
  leb, length,
}
use axiam_python_sdk.Json.{Value, Fields}
use axiam_python_sdk.Manifest.{ServiceAccountSpec, ManagementManifest}
use axiam_python_sdk.Manifest.Validate.{Problem, validate}
use axiam_python_sdk.Manifest.Models.{Snapshot, ServiceAccountResponse}
use axiam_python_sdk.Manifest.Plan.{Raised, PlannedAction}
use axiam_python_sdk.Manifest.Engine.{
  Resolved, Work, create_user, Step, Reply, accepted, refused, Server,
}
use axiam_python_sdk.Manifest.Engine.Running.{Applied, execute}
use axiam_python_sdk.Manifest.Compute.{
  Planned, select, Computed, computed, unknown_resource, no_order,
}
use axiam_python_sdk.Manifest.Compute.Parts.{compute}

-- The error that leaves plan or apply before any write: of validate, of the read, of an ambiguous
-- service account by its key, name and number of matches, of _compute, or of a user without a
-- password.
pub data Refusal : Type 0 where
  invalid : List Problem → Refusal
  unread : Raised → Refusal
  ambiguous : List (String × String × ℕ) → Refusal
  uncomputed : Computed → Refusal
  no_password : List String → Refusal

abbrev pub lacks_password : Work → Bool
lacks_password (create_user username email none) = true
lacks_password _ = false

-- _needs_password: the keys of the users that would be created without one
unfoldable pub missing_passwords : List Planned → List String
missing_passwords [] = []
missing_passwords ((action, step) ∷ steps) =
    let rest = missing_passwords steps in if lacks_password step.work then step.key ∷ rest else rest

-- _no_ambiguous_service_accounts: the problems that it finds
unfoldable pub ambiguous_accounts :
    List ServiceAccountResponse → List ServiceAccountSpec → List (String × String × ℕ)
unfolding select
ambiguous_accounts accounts [] = []
ambiguous_accounts accounts (spec ∷ specs) =
    let rest = ambiguous_accounts accounts specs in
    let matches = select (λ s. s.name == spec.name) accounts in
    if leb 2 (length matches) then (spec.key, spec.name, length matches) ∷ rest else rest

-- What plan and apply have before they return or write: the steps, or a refusal.
pub data Prepared : Type 0 where
  ready : Resolved → List Planned → Prepared
  rejected : Refusal → Prepared

abbrev pub check_passwords : Resolved → List Planned → List String → Prepared
check_passwords r steps [] = ready r steps
check_passwords r steps (key ∷ keys) = rejected (no_password (key ∷ keys))

abbrev pub check_computed : Computed → Prepared
check_computed (computed (r, steps)) = check_passwords r steps (missing_passwords steps)
check_computed c = rejected (uncomputed c)

abbrev pub check_accounts : List (String × String × ℕ) → Computed → Prepared
check_accounts [] c = check_computed c
check_accounts (problem ∷ problems) c = rejected (ambiguous (problem ∷ problems))

module _ {S : Type 0} (same_metadata : Value → Fields → Bool) (read : S → S × Reply Snapshot) where
  abbrev pub after_read :
      (m : ManagementManifest) → m.network ≡ none → S × Reply Snapshot → S × Prepared
  after_read m no_network (s, refused e) = (s, rejected (unread e))
  after_read m no_network (s, accepted snapshot) = (
    s,
    check_accounts (ambiguous_accounts snapshot.service_accounts m.service_accounts)
        (compute snapshot same_metadata m no_network),
  )

  abbrev pub after_validate :
      (m : ManagementManifest) → m.network ≡ none → S → Option (List Problem) → S × Prepared
  after_validate m no_network s (some problems) = (s, rejected (invalid problems))
  after_validate m no_network s none = after_read m no_network (read s)

  -- the lines that plan and apply share
  unfoldable pub prepare : (m : ManagementManifest) → m.network ≡ none → S → S × Prepared
  unfolding validate compute missing_passwords ambiguous_accounts
  prepare m no_network s = after_validate m no_network s (validate m)

-- What plan returns.
pub data Plan : Type 0 where
  planned : List PlannedAction → Plan
  unplanned : Refusal → Plan

abbrev pub plan_of : Prepared → Plan
plan_of (ready r steps) = planned (map (λ p. p.0) steps)
plan_of (rejected refusal) = unplanned refusal

-- What apply returns, with the server's state.
pub data Report (S : Type 0) : Type 0 where
  reported : Applied S → Report S
  unapplied : S → Refusal → Report S

module _ {S : Type 0} (same_metadata : Value → Fields → Bool) (read : S → S × Reply Snapshot) where
  -- plan
  unfoldable pub plan : (m : ManagementManifest) → m.network ≡ none → S → S × Plan
  unfolding prepare
  plan m no_network s =
      let (s, prepared) = prepare same_metadata read m no_network s in (s, plan_of prepared)

  module _ (server : Server S) where
    abbrev pub carry_out : S × Prepared → Report S
    carry_out (s, ready r steps) = reported (execute server steps r s)
    carry_out (s, rejected refusal) = unapplied s refusal

    -- apply
    unfoldable pub apply : (m : ManagementManifest) → m.network ≡ none → S → Report S
    unfolding prepare
    apply m no_network s = carry_out (prepare same_metadata read m no_network s)
