-- ===== src/Manifest/Plan.antt =====
-- The plan and the report of src/axiam_sdk/management/manifest/_plan.py: what is planned, what
-- became of each step, and the questions that a plan and a report answer.
use axiam_python_sdk.Base.{
  ℕ, suc, String, Bool, true, false, Option, none, some, List, [], ◌∷◌, ◌==◌, if◌then◌else◌,
  is_empty,
}

pub data Change : Type 0 where
  create update no_change : Change

pub data Target : Type 0 where
  resource scope permission role role_grant group group_role user user_role group_member
        service_account service_account_role network_policy network_segment network_profile :
      Target

pub data SubjectKind : Type 0 where
  to_group to_user to_service_account : SubjectKind

-- The one-line description of an action, by the values that its text shows.
pub data Summary : Type 0 where
  -- name, resource_type
  of_resource : String → String → Summary
  -- name, the resource's name
  of_scope : String → String → Summary
  of_permission of_role of_group of_user of_service_account : String → Summary
  -- permission, the role's name
  of_grant : String → String → Summary
  -- role, kind, the subject's name
  of_binding : String → SubjectKind → String → Summary
  -- username, group
  of_member : String → String → Summary

pub record PlannedAction : Type 0 where
  pub change : Change
  pub target : Target
  pub key : String
  pub summary : Summary

pub data Status : Type 0 where
  created updated unchanged failed not_attempted : Status

-- What a call raises: a ConflictError with its reason code, the KeyError of a key that was never
-- resolved, or anything else by its text.
pub data Raised : Type 0 where
  conflict : String → Option String → Raised
  missing : String → Raised
  error : String → Raised

-- The message of a failed step: that of its exception, or that of _RebindFailed, which shows the
-- assignment's exception and whether the previous binding was restored.
pub data Message : Type 0 where
  of_error : Raised → Message
  of_rebind : Raised → Bool → Message

pub record StepOutcome : Type 0 where
  pub status : Status
  pub message : Option Message
  pub client_secret : Option String
  pub restore_succeeded : Option Bool
  -- the exception of the restore attempt, whose text it is
  pub restore_error : Option Raised
  pub reason_code : Option String

-- StepOutcome(status)
abbrev pub outcome : Status → StepOutcome
outcome status = record {
  status = status;
  message = none;
  client_secret = none;
  restore_succeeded = none;
  restore_error = none;
  reason_code = none;
}

pub record AppliedStep : Type 0 where
  pub action : PlannedAction
  pub outcome : StepOutcome

pub record ManifestFailure : Type 0 where
  pub action : PlannedAction
  -- none for the empty text
  pub message : Option Message
  pub reason_code : Option String

abbrev pub is_no_change : Change → Bool
is_no_change no_change = true
is_no_change _ = false

-- ManagementPlan.changes
unfoldable pub changes : List PlannedAction → List PlannedAction
changes [] = []
changes (a ∷ actions) =
    let rest = changes actions in if is_no_change a.change then rest else a ∷ rest

-- ManagementPlan.is_converged
unfoldable pub is_converged : List PlannedAction → Bool
unfolding changes
is_converged actions = is_empty (changes actions)

abbrev pub is_failed : Status → Bool
is_failed failed = true
is_failed _ = false

-- ApplyReport.failure
unfoldable pub failure : List AppliedStep → Option ManifestFailure
failure [] = none
failure (s ∷ steps) =
    let rest = failure steps in
    if is_failed s.outcome.status
    then some (record {
      action = s.action;
      message = s.outcome.message;
      reason_code = s.outcome.reason_code;
    })
    else rest

-- ApplyReport.is_complete
unfoldable pub is_complete : List AppliedStep → Bool
unfolding failure
is_complete steps = elim (failure steps) [ none ↦ true | some f ↦ false ]

abbrev pub is_changed : Status → Bool
is_changed created = true
is_changed updated = true
is_changed _ = false

-- ApplyReport.changed_count
unfoldable pub changed_count : List AppliedStep → ℕ
changed_count [] = 0
changed_count (s ∷ steps) =
    let rest = changed_count steps in if is_changed s.outcome.status then suc rest else rest

abbrev pub secret_at : Bool → Option String → Option String → Option String
secret_at true (some secret) rest = some secret
secret_at true none rest = rest
secret_at false secret rest = rest

-- ApplyReport.client_secret
unfoldable pub client_secret : String → List AppliedStep → Option String
client_secret manifest_key [] = none
client_secret manifest_key (s ∷ steps) =
    secret_at (s.action.key == manifest_key) s.outcome.client_secret
      (client_secret manifest_key steps)
