-- ===== src/Manifest/Engine.antt =====
-- The steps of an apply and how they run: Resolved, Step, _run and _execute of
-- src/axiam_sdk/management/manifest/_engine.py, without the five kinds of step of a network section
-- and the two tables that these resolve. The endpoints of the management API are an argument: a
-- server answers a request, and its answer and its next state are its own.
pub mod Running
pub mod Stops
pub mod Rebound
use axiam_python_sdk.Base.{
  ℕ, String, Bool, true, false, not, ◌||◌, Option, none, some, List, [], ◌∷◌, ◌==◌, if◌then◌else◌,
}
use axiam_python_sdk.Json.{Fields}
use axiam_python_sdk.Dict.{Dict, lookup, put}
use axiam_python_sdk.Text.{starts_with, is_blank}
use axiam_python_sdk.Manifest.Plan.{
  SubjectKind, to_group, to_user, to_service_account, PlannedAction, Status, created, updated,
  unchanged, failed, not_attempted, Raised, conflict, missing, error, Message, of_error, of_rebind,
  StepOutcome, outcome, AppliedStep,
}

-- Manifest keys resolved to server ids.
pub record Resolved : Type 0 where
  pub resources : Dict String
  pub scopes : Dict String
  pub permissions : Dict String
  pub roles : Dict String
  pub groups : Dict String
  pub users : Dict String
  pub service_accounts : Dict String

-- Resolved()
abbrev pub nothing_resolved : Resolved
nothing_resolved = record {
  resources = [];
  scopes = [];
  permissions = [];
  roles = [];
  groups = [];
  users = [];
  service_accounts = [];
}

abbrev pub subjects : SubjectKind → Resolved → Dict String
subjects to_group r = r.groups
subjects to_user r = r.users
subjects to_service_account r = r.service_accounts

-- the payload of `assign-role-to-<kind>`
pub record Assignment : Type 0 where
  pub role : String
  pub subject : String
  pub resource : Option String
  pub inherit : Bool

-- what `rebind-role` has besides
pub record Previous : Type 0 where
  pub resource_id : Option String
  pub inherit : Bool
  pub tenant_scope : Option (List String)

-- What a step does, with its payload.
pub data Work : Type 0 where
  noop : Work
  -- name, resource_type, parent, metadata
  create_resource : String → String → Option String → Option Fields → Work
  -- the fields that differ: resource_type, metadata
  update_resource : Option String → Option Fields → Work
  -- resource, name, description
  create_scope : String → String → String → Work
  -- action, description
  create_permission : String → String → Work
  update_permission : String → Work
  -- name, description, is_global
  create_role : String → String → Bool → Work
  update_role : String → Bool → Work
  -- role, permission, effect, scopes
  grant_permission : String → String → Option String → List String → Work
  -- name, description
  create_group : String → String → Work
  update_group : String → Work
  -- username, email, password
  create_user : String → String → Option String → Work
  update_user : String → Work
  -- name, description
  create_service_account : String → Option String → Work
  update_service_account : Option String → Work
  assign_role : SubjectKind → Assignment → Work
  rebind_role : SubjectKind → Assignment → Previous → Work
  -- group, user
  add_group_member : String → String → Work

pub record Step : Type 0 where
  pub key : String
  pub work : Work

-- the step's `kind`
abbrev pub kind : Work → String
kind noop = "noop"
kind (create_resource _ _ _ _) = "create-resource"
kind (update_resource _ _) = "update-resource"
kind (create_scope _ _ _) = "create-scope"
kind (create_permission _ _) = "create-permission"
kind (update_permission _) = "update-permission"
kind (create_role _ _ _) = "create-role"
kind (update_role _ _) = "update-role"
kind (grant_permission _ _ _ _) = "grant-permission"
kind (create_group _ _) = "create-group"
kind (update_group _) = "update-group"
kind (create_user _ _ _) = "create-user"
kind (update_user _) = "update-user"
kind (create_service_account _ _) = "create-service-account"
kind (update_service_account _) = "update-service-account"
kind (assign_role to_group _) = "assign-role-to-group"
kind (assign_role to_user _) = "assign-role-to-user"
kind (assign_role to_service_account _) = "assign-role-to-service_account"
kind (rebind_role _ _ _) = "rebind-role"
kind (add_group_member _ _) = "add-group-member"

-- _status_of
unfoldable pub status_of : Work → Status
unfolding starts_with
status_of work =
    if starts_with "update" (kind work)
      || starts_with "replace" (kind work)
      || kind work == "rebind-role"
    then updated
    else created

-- AssignRoleTo*Request, with what is left out of the body as none
pub record AssignRequest : Type 0 where
  pub subject_id : String
  pub resource_id : Option String
  pub inherit : Option Bool
  pub tenant_scope : Option (List String)

-- A write of the management API, with ids for keys.
pub data Request : Type 0 where
  -- name, resource_type, parent_id, metadata
  post_resource : String → String → Option String → Option Fields → Request
  -- resource, and the fields to change
  patch_resource : String → Option String → Option Fields → Request
  post_scope : String → String → String → Request
  post_permission : String → String → Request
  patch_permission : String → String → Request
  post_role : String → String → Bool → Request
  patch_role : String → String → Bool → Request
  -- role, permission, effect, scopes
  post_grant : String → String → Option String → List String → Request
  post_group : String → String → Request
  patch_group : String → String → Request
  post_user : String → String → Option String → Request
  patch_user : String → String → Request
  post_service_account : String → Option String → Request
  patch_service_account : String → Option String → Request
  -- role, body
  assign : SubjectKind → String → AssignRequest → Request
  -- role, subject, resource
  unassign : SubjectKind → String → String → Option String → Request
  -- group, user
  post_member : String → String → Request

-- What an endpoint answers, where the caller reads it.
pub record Created : Type 0 where
  pub id : String
  pub client_secret : Option String

pub data Reply (A : Type 0) : Type 0 where
  accepted : A → Reply A
  refused : Raised → Reply A

abbrev pub Server : Type 0 → Type 0
Server S = Request → S → S × Reply Created

-- How a step ends: with the secret that it minted, with what it raised, or with _RebindFailed: what
-- the assignment raised, and what the restore attempt raised, if anything.
pub data Ran : Type 0 where
  done : Option String → Ran
  raised : Raised → Ran
  rebind_failed : Raised → Option Raised → Ran

-- A step's run: the server's state, the resolved keys and the end.
pub record Run (S : Type 0) : Type 0 where
  pub server : S
  pub resolved : Resolved
  pub ended : Ran

abbrev pub is_none : {A : Type 0} → Option A → Bool
is_none none = true
is_none (some a) = false

-- _failed_outcome, with the outcome of a step that raised nothing
unfoldable pub outcome_of : Work → Ran → StepOutcome
unfolding status_of
outcome_of work (done secret) = record (outcome (status_of work)) { client_secret = secret }
outcome_of work (raised (conflict text reason)) = record (outcome failed) {
  message = some (of_error (conflict text reason));
  reason_code = reason;
}
outcome_of work (raised e) = record (outcome failed) { message = some (of_error e) }
outcome_of work (rebind_failed e restore) = record (outcome failed) {
  message = some (of_rebind e (is_none restore));
  restore_succeeded = some (is_none restore);
  restore_error = restore;
}

-- _inherit_wire
abbrev pub inherit_wire : Bool → Option Bool
inherit_wire true = none
inherit_wire false = some false
