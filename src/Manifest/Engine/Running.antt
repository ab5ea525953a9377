-- ===== src/Manifest/Engine/Running.antt =====
-- How a step runs against a server, and a list of steps: _run, _rebind_role and _execute of
-- src/axiam_sdk/management/manifest/_engine.py.
use axiam_python_sdk.Base.{
  String, Bool, true, false, Option, none, some, List, [], ◌∷◌, if◌then◌else◌,
}
use axiam_python_sdk.Dict.{Dict, lookup, put}
use axiam_python_sdk.Text.{is_blank}
use axiam_python_sdk.Manifest.Plan.{
  SubjectKind, PlannedAction, unchanged, not_attempted, Raised, missing, StepOutcome, outcome,
  AppliedStep,
}
use axiam_python_sdk.Manifest.Engine.{
  Resolved, subjects, Assignment, Previous, Work, noop, create_resource, update_resource,
  create_scope, create_permission, update_permission, create_role, update_role, grant_permission,
  create_group, update_group, create_user, update_user, create_service_account,
  update_service_account, assign_role, rebind_role, add_group_member, Step, AssignRequest, Request,
  post_resource, patch_resource, post_scope, post_permission, patch_permission, post_role,
  patch_role, post_grant, post_group, patch_group, post_user, patch_user, post_service_account,
  patch_service_account, assign, unassign, post_member, Created, Reply, accepted, refused, Server,
  Ran, done, raised, rebind_failed, Run, outcome_of, inherit_wire,
}

-- r.resources.get(p["parent"]) if p["parent"] else None
abbrev pub parent_id : Resolved → Option String → Option String
parent_id r none = none
parent_id r (some key) = if is_blank key then none else lookup key r.resources

-- the body of an assignment of the step's own shape
abbrev pub stated_body : String → Option String → Assignment → Option (List String) → AssignRequest
stated_body subject_id resource_id a tenant_scope = record {
  subject_id = subject_id;
  resource_id = resource_id;
  inherit = inherit_wire a.inherit;
  tenant_scope = tenant_scope;
}

-- that of the binding that was there
abbrev pub previous_body : String → Previous → AssignRequest
previous_body subject_id p = record {
  subject_id = subject_id;
  resource_id = p.resource_id;
  inherit = inherit_wire p.inherit;
  tenant_scope = p.tenant_scope;
}

module _ {S : Type 0} where
  abbrev pub stop : S → Resolved → Ran → Run S
  stop s r ended = record { server = s; resolved = r; ended = ended }

  -- d[key], which raises a KeyError where it is missing
  abbrev pub need : S → Resolved → Dict String → String → (String → Run S) → Run S
  need s r d key next = elim (lookup key d) [
    | none ↦ stop s r (raised (missing key))
    | some id ↦ next id
  ]

  -- [d[key] for key in keys]
  unfoldable pub need_all : S → Resolved → Dict String → List String → (List String → Run S) → Run S
  need_all s r d [] next = next []
  need_all s r d (key ∷ keys) next =
      need s r d key (λ id. need_all s r d keys (λ ids. next (id ∷ ids)))

  abbrev pub need_named : S → Resolved → Bool → String → (Option String → Run S) → Run S
  need_named s r true key next = next none
  need_named s r false key next = need s r r.resources key (λ id. next (some id))

  -- _resource_step_id
  abbrev pub resource_step_id : S → Resolved → Option String → (Option String → Run S) → Run S
  resource_step_id s r none next = next none
  resource_step_id s r (some key) next = need_named s r (is_blank key) key next

  abbrev pub settle :
      Resolved → (Created → Resolved) → (Created → Option String) → S × Reply Created → Run S
  settle r record_id secret (s, accepted c) = stop s (record_id c) (done (secret c))
  settle r record_id secret (s, refused e) = stop s r (raised e)

  -- a call whose answer is not read
  abbrev pub write : Resolved → S × Reply Created → Run S
  write r answer = settle r (λ c. r) (λ c. none) answer

  -- a call whose answer names the id of what was made
  abbrev pub mint : Resolved → (String → Resolved) → S × Reply Created → Run S
  mint r record_id answer = settle r (λ c. record_id c.id) (λ c. none) answer

module _ {S : Type 0} where
  abbrev pub after_restore : Resolved → Raised → S × Reply Created → Run S
  after_restore r e (s, accepted c) = stop s r (rebind_failed e none)
  after_restore r e (s, refused again) = stop s r (rebind_failed e (some again))

module _ {S : Type 0} (server : Server S) where
  abbrev pub after_assign : Resolved → Request → S × Reply Created → Run S
  after_assign r restore (s, accepted c) = stop s r (done none)
  after_assign r restore (s, refused e) = after_restore r e (server restore s)

  abbrev pub after_unassign : Resolved → Request → Request → S × Reply Created → Run S
  after_unassign r next restore (s, accepted c) = after_assign r restore (server next s)
  after_unassign r next restore (s, refused e) = stop s r (raised e)

  -- the three calls of _rebind_role, once its keys are resolved
  unfoldable pub rebind :
      SubjectKind → Resolved → S → String → String → Option String → Assignment → Previous → Run S
  rebind kind r s role_id subject_id resource_id a p =
      after_unassign r (assign kind role_id (stated_body subject_id resource_id a p.tenant_scope))
        (assign kind role_id (previous_body subject_id p))
        (server (unassign kind role_id subject_id p.resource_id) s)

  -- _run
  unfoldable pub run : Step → Resolved → S → Run S
  unfolding need_all rebind
  run step r s = elim step.work [
    | noop ↦ stop s r (done none)
    | create_resource name type parent metadata ↦
        mint r (λ id. record r { resources = put step.key id r.resources })
          (server (post_resource name type (parent_id r parent) metadata) s)
    | update_resource type metadata ↦
        need s r r.resources step.key (λ id. write r (server (patch_resource id type metadata) s))
    | create_scope resource name description ↦ need s r r.resources resource (λ id.
        mint r (λ made. record r { scopes = put step.key made r.scopes })
          (server (post_scope id name description) s))
    | create_permission action description ↦
        mint r (λ id. record r { permissions = put step.key id r.permissions })
          (server (post_permission action description) s)
    | update_permission description ↦
        need s r r.permissions step.key (λ id. write r (server (patch_permission id description) s))
    | create_role name description is_global ↦
        mint r (λ id. record r { roles = put step.key id r.roles })
          (server (post_role name description is_global) s)
    | update_role description is_global ↦
        need s r r.roles step.key (λ id. write r (server (patch_role id description is_global) s))
    | grant_permission role permission effect scopes ↦ need s r r.roles role (λ role_id.
        need s r r.permissions permission (λ permission_id.
          need_all s r r.scopes scopes
            (λ scope_ids. write r (server (post_grant role_id permission_id effect scope_ids) s))))
    | create_group name description ↦
        mint r (λ id. record r { groups = put step.key id r.groups })
          (server (post_group name description) s)
    | update_group description ↦
        need s r r.groups step.key (λ id. write r (server (patch_group id description) s))
    | create_user username email password ↦
        mint r (λ id. record r { users = put step.key id r.users })
          (server (post_user username email password) s)
    | update_user email ↦ need s r r.users step.key (λ id. write r (server (patch_user id email) s))
    | create_service_account name description ↦
        settle r (λ c. record r { service_accounts = put step.key c.id r.service_accounts })
          (λ c. c.client_secret) (server (post_service_account name description) s)
    | update_service_account description ↦
        need s r r.service_accounts step.key
          (λ id. write r (server (patch_service_account id description) s))
    | assign_role kind a ↦ need s r r.roles a.role (λ role_id.
        need s r (subjects kind r) a.subject (λ subject_id.
          resource_step_id s r a.resource (λ resource_id.
            write r (server (assign kind role_id (stated_body subject_id resource_id a none)) s))))
    | rebind_role kind a p ↦ need s r r.roles a.role (λ role_id.
        resource_step_id s r a.resource (λ resource_id.
          need s r (subjects kind r) a.subject
            (λ subject_id. rebind kind r s role_id subject_id resource_id a p)))
    | add_group_member group user ↦ need s r r.groups group (λ group_id.
        need s r r.users user (λ user_id. write r (server (post_member group_id user_id) s)))
  ]

-- What an apply leaves: the server's state, the resolved keys, its report and whether it stopped.
pub record Applied (S : Type 0) : Type 0 where
  pub server : S
  pub resolved : Resolved
  pub steps : List AppliedStep
  pub stopped : Bool

-- a step that raised stops the loop
abbrev pub stops : Ran → Bool
stops (done secret) = false
stops _ = true

abbrev pub report : {S : Type 0} → AppliedStep → Applied S → Applied S
report step rest = record rest { steps = step ∷ rest.steps }

abbrev pub is_noop : Work → Bool
is_noop noop = true
is_noop _ = false

-- What one turn of the loop of _execute leaves: the outcome it appends, `stopped`, and the rest.
pub record Turn (S : Type 0) : Type 0 where
  pub outcome : StepOutcome
  pub stopped : Bool
  pub resolved : Resolved
  pub server : S

module _ {S : Type 0} (server : Server S) where
  unfoldable pub turn : Bool → Step → Resolved → S → Turn S
  unfolding run outcome_of
  turn true step r s = record {
    outcome = outcome not_attempted;
    stopped = true;
    resolved = r;
    server = s;
  }
  turn false step r s =
      let result = run server step r s in
      elim (is_noop step.work) [
        | true ↦ record { outcome = outcome unchanged; stopped = false; resolved = r; server = s }
        | false ↦ record {
          outcome = outcome_of step.work result.ended;
          stopped = stops result.ended;
          resolved = result.resolved;
          server = result.server;
        }
      ]

  -- the loop of _execute, from its `stopped`
  unfoldable pub execute_from : Bool → List (PlannedAction × Step) → Resolved → S → Applied S
  unfolding turn
  execute_from stopped [] r s = record { server = s; resolved = r; steps = []; stopped = stopped }
  execute_from stopped ((action, step) ∷ steps) r s =
      let t = turn stopped step r s in
      report (record { action = action; outcome = t.outcome })
        (execute_from t.stopped steps t.resolved t.server)

  -- _execute
  abbrev pub execute : List (PlannedAction × Step) → Resolved → S → Applied S
  execute steps r s = execute_from false steps r s
