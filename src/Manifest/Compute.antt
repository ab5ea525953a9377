-- ===== src/Manifest/Compute.antt =====
-- _plan_role_binding and _compute of src/axiam_sdk/management/manifest/_engine.py, for a manifest
-- without a network section: the steps that would reconcile a manifest with a snapshot. Each part
-- takes the resolved keys and returns them with its steps. Python's `==` of a resource's metadata
-- and a spec's is an argument.
pub mod Bindings
pub mod Parts
pub mod Arranged
pub mod Ascending
pub mod Computes
use axiam_python_sdk.Base.{
  String, Bool, true, false, ◌&&◌, ◌||◌, not, Option, none, some, List, [], ◌∷◌, ◌++◌, ◌==◌,
  if◌then◌else◌, is_some,
}
use axiam_python_sdk.Json.{Value, Fields}
use axiam_python_sdk.Dict.{Dict, lookup, put}
use axiam_python_sdk.Text.{is_blank}
use axiam_python_sdk.Manifest.{
  ScopeSpec, ResourceSpec, PermissionSpec, GrantSpec, ScopedRoleBinding, RoleBinding, plain, scoped,
  RoleSpec, GroupSpec, UserSpec, ServiceAccountSpec, ManagementManifest,
}
use axiam_python_sdk.Manifest.Order.{
  member, flatten, Order, ordered, cycle, stuck, topological_order,
}
use axiam_python_sdk.Manifest.Validate.{role_key, resource_key}
use axiam_python_sdk.Manifest.Models.{
  Resource, Scope, Permission, Role, Group, UserResponse, ServiceAccountResponse, RoleAssignment,
  Snapshot,
}
use axiam_python_sdk.Manifest.Plan.{
  Change, create, update, no_change, Target, resource, scope, permission, role, role_grant, group,
  group_role, user, user_role, group_member, service_account, service_account_role, SubjectKind,
  to_group, to_user, to_service_account, Summary, of_resource, of_scope, of_permission, of_role,
  of_group, of_user, of_service_account, of_grant, of_binding, of_member, PlannedAction,
}
use axiam_python_sdk.Manifest.Engine.{
  Resolved, nothing_resolved, Assignment, Previous, Work, noop, create_resource, update_resource,
  create_scope, create_permission, update_permission, create_role, update_role, grant_permission,
  create_group, update_group, create_user, update_user, create_service_account,
  update_service_account, assign_role, rebind_role, add_group_member, Step,
}

abbrev pub Planned : Type 0
Planned = PlannedAction × Step

-- Step(kind, key, fields)
abbrev pub step_at : String → Work → Step
step_at key work = record { key = key; work = work }

-- push: the action's key and the step are given apart
abbrev pub push : Change → Target → String → Summary → Step → Planned
push change target key summary step =
    (record { change = change; target = target; key = key; summary = summary }, step)

-- an update by the first step where something differs, else no change, with the second
abbrev pub update_if : Bool → Target → String → Summary → Step → Step → Planned
update_if true target key summary step idle = push update target key summary step
update_if false target key summary step idle = push no_change target key summary idle

-- no change with the second step where something is there, else its creation by the first
abbrev pub create_unless : Bool → Target → String → Summary → Step → Step → Planned
create_unless true target key summary step idle = push no_change target key summary idle
create_unless false target key summary step idle = push create target key summary step

-- next((x for x in xs if test(x)), None)
unfoldable pub find : {A : Type 0} → (A → Bool) → List A → Option A
find test [] = none
find test (x ∷ xs) = let rest = find test xs in if test x then some x else rest

-- [x for x in xs if test(x)]
unfoldable pub select : {A : Type 0} → (A → Bool) → List A → List A
select test [] = []
select test (x ∷ xs) = let rest = select test xs in if test x then x ∷ rest else rest

-- d.get(key, [])
abbrev pub listed : {A : Type 0} → Option (List A) → List A
listed none = []
listed (some xs) = xs

-- d.get(id, []) if id else []
abbrev pub listed_for : {A : Type 0} → Dict (List A) → Option String → List A
listed_for d none = []
listed_for d (some id) = if is_blank id then [] else listed (lookup id d)

infix 50 ◌==?◌
abbrev pub ◌==?◌ : Option String → Option String → Bool
none ==? none = true
some a ==? some b = a == b
_ ==? _ = false

abbrev pub same_bool : Bool → Bool → Bool
same_bool true b = b
same_bool false b = not b

-- The resolved keys after a part, with its steps.
abbrev pub Part : Type 0
Part = Resolved × List Planned

-- a loop whose turns resolve a key and push one step
unfoldable pub each_step :
    {A : Type 0} → (A → Resolved → Resolved × Planned) → List A → Resolved → Part
each_step turn [] r = (r, [])
each_step turn (x ∷ xs) r =
    let (r, planned) = turn x r in let (r, rest) = each_step turn xs r in (r, planned ∷ rest)

-- a loop whose turns are parts
unfoldable pub each_part : {A : Type 0} → (A → Resolved → Part) → List A → Resolved → Part
each_part turn [] r = (r, [])
each_part turn (x ∷ xs) r =
    let (r, first) = turn x r in let (r, rest) = each_part turn xs r in (r, first ++ rest)

-- a part, then another
infixr 20 ◌▷◌
abbrev pub ◌▷◌ : (Resolved → Part) → (Resolved → Part) → Resolved → Part
(p ▷ q) r = let (r, first) = p r in let (r, rest) = q r in (r, first ++ rest)

-- specs = {r.key: r for r in manifest.resources}, on top of the pairs so far
unfoldable pub add_specs : List ResourceSpec → Dict ResourceSpec → Dict ResourceSpec
add_specs [] specs = specs
add_specs (r ∷ rs) specs = add_specs rs (put r.key r specs)

-- What _compute returns, or the exception that leaves it: the KeyError of `specs[key]`, or that of
-- topological_order.
pub data Computed : Type 0 where
  computed : Part → Computed
  unknown_resource : String → Computed
  no_order : Order → Computed

module _ (same_metadata : Value → Fields → Bool) where
  -- spec.metadata where _metadata_differs, else left out
  abbrev pub changed_metadata : Value → Option Fields → Option Fields
  changed_metadata existing none = none
  changed_metadata existing (some stated) =
      if same_metadata existing stated then none else some stated

  abbrev pub resource_found :
      ResourceSpec → String → Resolved → Option Resource → Resolved × Planned
  resource_found spec key r none = (
    r,
    push create resource key (of_resource spec.name spec.resource_type)
        (step_at key (create_resource spec.name spec.resource_type spec.parent spec.metadata)),
  )
  resource_found spec key r (some existing) =
      let type =
        if existing.resource_type == spec.resource_type then none else some spec.resource_type in
      let metadata = changed_metadata existing.metadata spec.metadata in
      (
        record r { resources = put key existing.id r.resources },
        update_if (is_some type || is_some metadata) resource key
            (of_resource spec.name spec.resource_type) (step_at key (update_resource type metadata))
            (step_at key noop),
      )

  abbrev pub parent_pending : Option String → Resolved → Bool
  parent_pending none r = false
  parent_pending (some parent) r = not (is_some (lookup parent r.resources))

  -- resolved.resources.get(spec.parent) if spec.parent else None
  abbrev pub resolved_parent : Option String → Resolved → Option String
  resolved_parent none r = none
  resolved_parent (some parent) r = if is_blank parent then none else lookup parent r.resources

  -- one turn of the loop over the ordered resource keys
  unfoldable pub plan_resource : Snapshot → ResourceSpec → String → Resolved → Resolved × Planned
  unfolding find
  plan_resource snapshot spec key r =
      let parent_id = resolved_parent spec.parent r in
      resource_found spec key r (
        if parent_pending spec.parent r
        then none
        else find (λ e. e.name == spec.name && e.parent_id ==? parent_id) snapshot.resources)
