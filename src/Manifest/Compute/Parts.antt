-- ===== src/Manifest/Compute/Parts.antt =====
-- The parts of _compute of src/axiam_sdk/management/manifest/_engine.py, in its order.
use axiam_python_sdk.Base.{
  ◌≡◌, String, Bool, false, ◌||◌, not, Option, none, some, List, [], ◌∷◌, ◌==◌,
}
use axiam_python_sdk.Json.{Value, Fields}
use axiam_python_sdk.Dict.{Dict, lookup, put}
use axiam_python_sdk.Manifest.{
  ScopeSpec, ResourceSpec, PermissionSpec, RoleSpec, GroupSpec, UserSpec, ServiceAccountSpec,
  ManagementManifest,
}
use axiam_python_sdk.Manifest.Order.{member, Order, ordered, cycle, stuck, topological_order}
use axiam_python_sdk.Manifest.Models.{
  Scope, Permission, Role, Group, UserResponse, ServiceAccountResponse, Snapshot,
}
use axiam_python_sdk.Manifest.Plan.{
  create, no_change, scope, permission, role, role_grant, group, group_role, user, user_role,
  group_member, service_account, service_account_role, to_group, to_user, to_service_account,
  of_scope, of_permission, of_role, of_group, of_user, of_service_account, of_grant, of_member,
}
use axiam_python_sdk.Manifest.Engine.{
  Resolved, nothing_resolved, noop, create_scope, create_permission, update_permission, create_role,
  update_role, grant_permission, create_group, update_group, create_user, update_user,
  create_service_account, update_service_account, add_group_member,
}
use axiam_python_sdk.Manifest.Compute.{
  step_at, Planned, push, update_if, create_unless, find, select, listed_for, ◌==?◌, same_bool,
  Part, each_step, each_part, ◌▷◌, add_specs, Computed, computed, unknown_resource, no_order,
  plan_resource,
}
use axiam_python_sdk.Manifest.Compute.Bindings.{plan_bindings}

-- a step before those of a result
abbrev pub after_resource : Planned → Computed → Computed
after_resource planned (computed (r, rest)) = computed (r, planned ∷ rest)
after_resource planned other = other

-- specs[key]
abbrev pub with_spec : String → Option ResourceSpec → (ResourceSpec → Computed) → Computed
with_spec key none next = unknown_resource key
with_spec key (some spec) next = next spec

-- permission_id is not None and permission_id in granted
abbrev pub holds : List String → Option String → Bool
holds ids none = false
holds ids (some id) = member id ids

module _ (snapshot : Snapshot) where
  abbrev pub scope_found : ResourceSpec → ScopeSpec → Resolved → Option Scope → Resolved × Planned
  scope_found spec s r none = (
    r,
    push create scope s.key (of_scope s.name spec.name)
        (step_at s.key (create_scope spec.key s.name s.description)),
  )
  scope_found spec s r (some found) = (
    record r { scopes = put s.key found.id r.scopes },
    push no_change scope s.key (of_scope s.name spec.name) (step_at s.key noop),
  )

  unfoldable pub plan_scopes : ResourceSpec → Resolved → Part
  unfolding each_step find
  plan_scopes spec r =
      let current = listed_for snapshot.scopes (lookup spec.key r.resources) in
      each_step (λ s r. scope_found spec s r (find (λ e. e.name == s.name) current)) spec.scopes r

  abbrev pub permission_found : PermissionSpec → Resolved → Option Permission → Resolved × Planned
  permission_found p r none = (
    r,
    push create permission p.key (of_permission p.action)
        (step_at p.key (create_permission p.action p.description)),
  )
  permission_found p r (some found) = (
    record r { permissions = put p.key found.id r.permissions },
    update_if (not (found.description == p.description)) permission p.key (of_permission p.action)
        (step_at p.key (update_permission p.description)) (step_at p.key noop),
  )

  unfoldable pub plan_permission : PermissionSpec → Resolved → Resolved × Planned
  unfolding find
  plan_permission p r = permission_found p r (find (λ e. e.action == p.action) snapshot.permissions)

  abbrev pub role_found : RoleSpec → Resolved → Option Role → Resolved × Planned
  role_found spec r none = (
    r,
    push create role spec.key (of_role spec.name)
        (step_at spec.key (create_role spec.name spec.description spec.is_global)),
  )
  role_found spec r (some found) = (
    record r { roles = put spec.key found.id r.roles },
    update_if
        (not (found.description == spec.description)
          || not (same_bool found.is_global spec.is_global))
        role spec.key (of_role spec.name)
        (step_at spec.key (update_role spec.description spec.is_global)) (step_at spec.key noop),
  )

  unfoldable pub plan_role : RoleSpec → Resolved → Resolved × Planned
  unfolding find
  plan_role spec r = role_found spec r (find (λ e. e.name == spec.name) snapshot.roles)

  unfoldable pub plan_grants : RoleSpec → Resolved → Part
  unfolding each_step
  plan_grants spec r =
      let granted = listed_for snapshot.role_grants (lookup spec.key r.roles) in
      each_step
        (λ g r. (
          r,
          create_unless (holds granted (lookup g.permission r.permissions)) role_grant spec.key
              (of_grant g.permission spec.name)
              (step_at spec.key (grant_permission spec.key g.permission g.effect g.scopes))
              (step_at spec.key noop),
        ))
        spec.grants r

  abbrev pub group_found : GroupSpec → Resolved → Option Group → Resolved × Planned
  group_found spec r none = (
    r,
    push create group spec.key (of_group spec.name)
        (step_at spec.key (create_group spec.name spec.description)),
  )
  group_found spec r (some found) = (
    record r { groups = put spec.key found.id r.groups },
    update_if (not (found.description == spec.description)) group spec.key (of_group spec.name)
        (step_at spec.key (update_group spec.description)) (step_at spec.key noop),
  )

  unfoldable pub plan_group : GroupSpec → Resolved → Resolved × Planned
  unfolding find
  plan_group spec r = group_found spec r (find (λ e. e.name == spec.name) snapshot.groups)

  unfoldable pub plan_group_roles : GroupSpec → Resolved → Part
  unfolding plan_bindings
  plan_group_roles spec r =
      plan_bindings (λ g. g.id) to_group group_role snapshot.role_group_bindings spec.key
        (lookup spec.key r.groups) spec.name spec.roles r

  abbrev pub user_found : UserSpec → Resolved → Option UserResponse → Resolved × Planned
  user_found spec r none = (
    r,
    push create user spec.key (of_user spec.username)
        (step_at spec.key (create_user spec.username spec.email spec.initial_password)),
  )
  user_found spec r (some found) = (
    record r { users = put spec.key found.id r.users },
    update_if (not (found.email == spec.email)) user spec.key (of_user spec.username)
        (step_at spec.key (update_user spec.email)) (step_at spec.key noop),
  )

  unfoldable pub plan_user : UserSpec → Resolved → Resolved × Planned
  unfolding find
  plan_user spec r = user_found spec r (find (λ e. e.username == spec.username) snapshot.users)

  unfoldable pub plan_user_roles : UserSpec → Resolved → Part
  unfolding plan_bindings
  plan_user_roles spec r =
      plan_bindings (λ u. u.id) to_user user_role snapshot.role_user_bindings spec.key
        (lookup spec.key r.users) spec.username spec.roles r

  -- what the loop does with the accounts of one name; it passes over an ambiguous one
  abbrev pub accounts_found : ServiceAccountSpec → Resolved → List ServiceAccountResponse → Part
  accounts_found spec r [] = (
    r,
    push create service_account spec.key (of_service_account spec.name)
          (step_at spec.key (create_service_account spec.name spec.description))
        ∷ [],
  )
  accounts_found spec r (found ∷ []) = (
    record r { service_accounts = put spec.key found.id r.service_accounts },
    update_if (not (found.description ==? spec.description)) service_account spec.key
          (of_service_account spec.name)
          (step_at spec.key (update_service_account spec.description)) (step_at spec.key noop)
        ∷ [],
  )
  accounts_found spec r (found ∷ another ∷ more) = (r, [])

  unfoldable pub plan_service_account : ServiceAccountSpec → Resolved → Part
  unfolding select
  plan_service_account spec r =
      accounts_found spec r (select (λ e. e.name == spec.name) snapshot.service_accounts)

  unfoldable pub plan_service_account_roles : ServiceAccountSpec → Resolved → Part
  unfolding plan_bindings
  plan_service_account_roles spec r =
      plan_bindings (λ s. s.id) to_service_account service_account_role
        snapshot.role_service_account_bindings spec.key (lookup spec.key r.service_accounts)
        spec.name spec.roles r

  unfoldable pub plan_memberships : UserSpec → Resolved → Part
  unfolding each_step
  plan_memberships spec r =
      each_step
        (λ g r.
          let members = listed_for snapshot.group_members (lookup g r.groups) in
          (
            r,
            create_unless (holds members (lookup spec.key r.users)) group_member spec.key
                (of_member spec.username g) (step_at spec.key (add_group_member g spec.key))
                (step_at spec.key noop),
          ))
        spec.groups r

  -- the loops of _compute after the first
  unfoldable pub plan_rest : ManagementManifest → Resolved → Part
  unfolding each_step each_part plan_scopes plan_permission plan_role plan_grants plan_group
      plan_group_roles plan_user plan_user_roles plan_service_account plan_service_account_roles
      plan_memberships
  plan_rest m =
      each_part plan_scopes m.resources
      ▷ each_step plan_permission m.permissions
      ▷ each_step plan_role m.roles
      ▷ each_part plan_grants m.roles
      ▷ each_step plan_group m.groups
      ▷ each_part plan_group_roles m.groups
      ▷ each_step plan_user m.users
      ▷ each_part plan_user_roles m.users
      ▷ each_part plan_service_account m.service_accounts
      ▷ each_part plan_service_account_roles m.service_accounts
      ▷ each_part plan_memberships m.users

  module _ (same_metadata : Value → Fields → Bool) where
    -- the first loop, over the ordered keys, and then the others
    unfoldable pub plan_resources :
        Dict ResourceSpec → List String → (Resolved → Part) → Resolved → Computed
    unfolding plan_resource
    plan_resources specs [] rest r = computed (rest r)
    plan_resources specs (key ∷ keys) rest r = with_spec key (lookup key specs) (λ spec.
        let (r, planned) = plan_resource same_metadata snapshot spec key r in
        after_resource planned (plan_resources specs keys rest r))

    abbrev pub compute_ordered : ManagementManifest → Order → Computed
    compute_ordered m (ordered keys) =
        plan_resources (add_specs m.resources []) keys (plan_rest m) nothing_resolved
    compute_ordered m (cycle k) = no_order (cycle k)
    compute_ordered m stuck = no_order stuck

    -- _compute, from Resolved(), of a manifest without a network section
    unfoldable pub compute : (m : ManagementManifest) → m.network ≡ none → Computed
    unfolding topological_order plan_resources plan_rest add_specs
    compute m no_network = compute_ordered m (topological_order m.resources)
