-- ===== src/Manifest/Compute/Bindings.antt =====
-- _plan_role_binding of src/axiam_sdk/management/manifest/_engine.py.
use axiam_python_sdk.Base.{String, Bool, true, ◌&&◌, not, Option, none, some, List, ◌==◌}
use axiam_python_sdk.Dict.{Dict, lookup}
use axiam_python_sdk.Manifest.{RoleBinding, plain, scoped}
use axiam_python_sdk.Manifest.Validate.{role_key, resource_key}
use axiam_python_sdk.Manifest.Models.{RoleAssignment}
use axiam_python_sdk.Manifest.Plan.{create, Target, SubjectKind, of_binding}
use axiam_python_sdk.Manifest.Engine.{noop, Resolved, Assignment, assign_role, rebind_role}
use axiam_python_sdk.Manifest.Compute.{
  step_at, Planned, push, update_if, find, listed_for, ◌==?◌, same_bool, Part, each_step,
}

-- _binding_resource_and_inherit
abbrev pub stated_resource : RoleBinding → Resolved → Option String
stated_resource (plain _) r = none
stated_resource (scoped b) r = lookup b.resource r.resources

abbrev pub stated_inherit : RoleBinding → Bool
stated_inherit (plain _) = true
stated_inherit (scoped b) = b.inherit

-- the payload of a step that binds
abbrev pub assignment : String → RoleBinding → Assignment
assignment subject b = record {
  role = role_key b;
  subject = subject;
  resource = resource_key b;
  inherit = stated_inherit b;
}

module _ {A : Type 0} (id_of : A → String) where
  -- _existing_binding
  unfoldable pub existing_binding :
      Option String → List (RoleAssignment A) → Option (RoleAssignment A)
  unfolding find
  existing_binding none bindings = none
  existing_binding (some subject_id) bindings = find (λ a. id_of a.subject == subject_id) bindings

  -- what the loop does with the assignment that it found
  unfoldable pub plan_existing :
      SubjectKind
      → Target
      → String
      → String
      → RoleBinding
      → Resolved
      → Option (RoleAssignment A)
      → Planned
  plan_existing kind target subject_key subject_name b r none =
      push create target subject_key (of_binding (role_key b) kind subject_name)
        (step_at subject_key (assign_role kind (assignment subject_key b)))
  plan_existing kind target subject_key subject_name b r (some e) =
      let same = e.resource_id ==? stated_resource b r && same_bool e.inherit (stated_inherit b) in
      update_if (not same) target subject_key (of_binding (role_key b) kind subject_name)
        (step_at subject_key (
          rebind_role kind (assignment subject_key b) (record {
            resource_id = e.resource_id;
            inherit = e.inherit;
            tenant_scope = e.tenant_scope;
          })))
        (step_at subject_key noop)

  -- _plan_role_binding, with the listing of the role's assignments that the caller chooses
  unfoldable pub plan_role_binding :
      SubjectKind
      → Target
      → Dict (List (RoleAssignment A))
      → String
      → Option String
      → String
      → RoleBinding
      → Resolved
      → Planned
  unfolding existing_binding plan_existing
  plan_role_binding kind target bindings subject_key subject_id subject_name b r =
      let role_id = lookup (role_key b) r.roles in
      plan_existing kind target subject_key subject_name b r (elim role_id [
        | none ↦ none
        | some id ↦ existing_binding subject_id (listed_for bindings (some id))
      ])

  -- the loops over a subject's roles
  unfoldable pub plan_bindings :
      SubjectKind
      → Target
      → Dict (List (RoleAssignment A))
      → String
      → Option String
      → String
      → List RoleBinding
      → Resolved
      → Part
  unfolding each_step plan_role_binding
  plan_bindings kind target bindings subject_key subject_id subject_name roles r =
      each_step
        (λ b r. (r, plan_role_binding kind target bindings subject_key subject_id subject_name b r))
        roles r
