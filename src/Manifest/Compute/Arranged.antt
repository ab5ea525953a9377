-- ===== src/Manifest/Compute/Arranged.antt =====
-- What holds of every plan: which steps change nothing, and in which order the steps come.
use axiam_python_sdk.Base.{
  ℕ, String, ◌≡◌, refl, sym, Bool, true, false, Option, none, some, List, [], ◌∷◌, All, All-append,
}
use axiam_python_sdk.Json.{Value, Fields}
use axiam_python_sdk.Dict.{Dict}
use axiam_python_sdk.Manifest.{
  ResourceSpec, ScopeSpec, PermissionSpec, RoleSpec, GroupSpec, UserSpec, ServiceAccountSpec,
  RoleBinding,
}
use axiam_python_sdk.Manifest.Models.{
  Resource, Scope, Permission, Role, Group, UserResponse, ServiceAccountResponse, RoleAssignment,
  Snapshot,
}
use axiam_python_sdk.Manifest.Plan.{
  Target, resource, scope, permission, role, role_grant, group, group_role, user, user_role,
  group_member, service_account, service_account_role, network_policy, network_segment,
  network_profile, SubjectKind, Summary, is_no_change,
}
use axiam_python_sdk.Manifest.Engine.{Resolved, Work, noop}
use axiam_python_sdk.Manifest.Engine.Running.{is_noop}
use axiam_python_sdk.Manifest.Compute.{
  step_at, Planned, update_if, create_unless, Part, each_step, each_part, plan_resource,
  resource_found,
}
use axiam_python_sdk.Manifest.Compute.Bindings.{plan_existing, plan_role_binding, plan_bindings}
use axiam_python_sdk.Manifest.Compute.Parts.{
  scope_found, plan_scopes, permission_found, plan_permission, role_found, plan_role, plan_grants,
  group_found, plan_group, user_found, plan_user, accounts_found, plan_service_account,
  plan_memberships,
}

-- The place of a target in the order that the contract gives.
abbrev pub rank : Target → ℕ
rank resource = 0
rank scope = 1
rank permission = 2
rank role = 3
rank role_grant = 4
rank group = 5
rank group_role = 6
rank user = 7
rank user_role = 8
rank service_account = 9
rank service_account_role = 10
rank group_member = 11
rank network_policy = 12
rank network_segment = 13
rank network_profile = 14

-- A step that does nothing is planned exactly as no change, and step and action share their key.
abbrev pub Marked : Planned → Type 0
Marked (action, step) = (is_no_change action.change ≡ is_noop step.work) × (action.key ≡ step.key)

-- Marked, at a place of the order
abbrev pub At : ℕ → Planned → Type 0
At n (action, step) = Marked (action, step) × (rank action.target ≡ n)

update_if-At :
    (b : Bool) (t : Target) (key : String) (summary : Summary) (work : Work)
    → is_noop work ≡ false
    → At (rank t) (update_if b t key summary (step_at key work) (step_at key noop))
update_if-At true t key summary work active = ((sym active, refl), refl)
update_if-At false t key summary work active = ((refl, refl), refl)

create_unless-At :
    (b : Bool) (t : Target) (key : String) (summary : Summary) (work : Work)
    → is_noop work ≡ false
    → At (rank t) (create_unless b t key summary (step_at key work) (step_at key noop))
create_unless-At true t key summary work active = ((refl, refl), refl)
create_unless-At false t key summary work active = ((sym active, refl), refl)

update_if-key :
    (b : Bool) (t : Target) (key : String) (summary : Summary) (work : Work)
    → (update_if b t key summary (step_at key work) (step_at key noop)).0.key ≡ key
update_if-key true t key summary work = refl
update_if-key false t key summary work = refl

module _ (P : Planned → Type 0) {A : Type 0} where
  pub each_step-All :
      (turn : A → Resolved → Resolved × Planned) (xs : List A) (r : Resolved)
      → ((x : A) (r : Resolved) → P (turn x r).1)
      → All P (each_step turn xs r).1
  unfolding each_step
  each_step-All turn [] r each = tt
  each_step-All turn (x ∷ xs) r each = (each x r, each_step-All turn xs (turn x r).0 each)

  pub each_part-All :
      (turn : A → Resolved → Part) (xs : List A) (r : Resolved)
      → ((x : A) (r : Resolved) → All P (turn x r).1)
      → All P (each_part turn xs r).1
  unfolding each_part
  each_part-All turn [] r each = tt
  each_part-All turn (x ∷ xs) r each =
      All-append P (turn x r).1 (each_part turn xs (turn x r).0).1 (each x r)
        (each_part-All turn xs (turn x r).0 each)

module _ (same_metadata : Value → Fields → Bool) (snapshot : Snapshot) where
  pub plan_resource-At :
      (spec : ResourceSpec) (key : String) (r : Resolved)
      → At 0 (plan_resource same_metadata snapshot spec key r).1
  unfolding plan_resource
  plan_resource-At spec key r = found _
    where
      found : (e : Option Resource) → At 0 (resource_found same_metadata spec key r e).1
      found none = ((refl, refl), refl)
      found (some e) = update_if-At _ resource key _ _ refl

  pub plan_resource-key :
      (spec : ResourceSpec) (key : String) (r : Resolved)
      → (plan_resource same_metadata snapshot spec key r).1.0.key ≡ key
  unfolding plan_resource
  plan_resource-key spec key r = found _
    where
      found : (e : Option Resource) → (resource_found same_metadata spec key r e).1.0.key ≡ key
      found none = refl
      found (some e) = update_if-key _ resource key _ _

module _ (snapshot : Snapshot) where
  scope_found-At :
      (spec : ResourceSpec) (s : ScopeSpec) (r : Resolved) (e : Option Scope)
      → At 1 (scope_found snapshot spec s r e).1
  scope_found-At spec s r none = ((refl, refl), refl)
  scope_found-At spec s r (some e) = ((refl, refl), refl)

  pub plan_scopes-At :
      (spec : ResourceSpec) (r : Resolved) → All (At 1) (plan_scopes snapshot spec r).1
  unfolding plan_scopes
  plan_scopes-At spec r = each_step-All (At 1) _ spec.scopes r (λ s r. scope_found-At spec s r _)

  permission_found-At :
      (p : PermissionSpec) (r : Resolved) (e : Option Permission)
      → At 2 (permission_found snapshot p r e).1
  permission_found-At p r none = ((refl, refl), refl)
  permission_found-At p r (some e) = update_if-At _ permission p.key _ _ refl

  pub plan_permission-At :
      (p : PermissionSpec) (r : Resolved) → At 2 (plan_permission snapshot p r).1
  unfolding plan_permission
  plan_permission-At p r = permission_found-At p r _

  role_found-At :
      (spec : RoleSpec) (r : Resolved) (e : Option Role) → At 3 (role_found snapshot spec r e).1
  role_found-At spec r none = ((refl, refl), refl)
  role_found-At spec r (some e) = update_if-At _ role spec.key _ _ refl

  pub plan_role-At : (spec : RoleSpec) (r : Resolved) → At 3 (plan_role snapshot spec r).1
  unfolding plan_role
  plan_role-At spec r = role_found-At spec r _

  pub plan_grants-At : (spec : RoleSpec) (r : Resolved) → All (At 4) (plan_grants snapshot spec r).1
  unfolding plan_grants
  plan_grants-At spec r =
      each_step-All (At 4) _ spec.grants r (λ g r. create_unless-At _ role_grant spec.key _ _ refl)

  group_found-At :
      (spec : GroupSpec) (r : Resolved) (e : Option Group) → At 5 (group_found snapshot spec r e).1
  group_found-At spec r none = ((refl, refl), refl)
  group_found-At spec r (some e) = update_if-At _ group spec.key _ _ refl

  pub plan_group-At : (spec : GroupSpec) (r : Resolved) → At 5 (plan_group snapshot spec r).1
  unfolding plan_group
  plan_group-At spec r = group_found-At spec r _

  user_found-At :
      (spec : UserSpec) (r : Resolved) (e : Option UserResponse)
      → At 7 (user_found snapshot spec r e).1
  user_found-At spec r none = ((refl, refl), refl)
  user_found-At spec r (some e) = update_if-At _ user spec.key _ _ refl

  pub plan_user-At : (spec : UserSpec) (r : Resolved) → At 7 (plan_user snapshot spec r).1
  unfolding plan_user
  plan_user-At spec r = user_found-At spec r _

  accounts_found-At :
      (spec : ServiceAccountSpec) (r : Resolved) (es : List ServiceAccountResponse)
      → All (At 9) (accounts_found snapshot spec r es).1
  accounts_found-At spec r [] = (((refl, refl), refl), tt)
  accounts_found-At spec r (e ∷ []) = (update_if-At _ service_account spec.key _ _ refl, tt)
  accounts_found-At spec r (e ∷ another ∷ more) = tt

  pub plan_service_account-At :
      (spec : ServiceAccountSpec) (r : Resolved)
      → All (At 9) (plan_service_account snapshot spec r).1
  unfolding plan_service_account
  plan_service_account-At spec r = accounts_found-At spec r _

  pub plan_memberships-At :
      (spec : UserSpec) (r : Resolved) → All (At 11) (plan_memberships snapshot spec r).1
  unfolding plan_memberships
  plan_memberships-At spec r =
      each_step-All (At 11) _ spec.groups r
        (λ g r. create_unless-At _ group_member spec.key _ _ refl)

module _ {A : Type 0} (id_of : A → String) (kind : SubjectKind) (t : Target) (subject_key : String)
    (subject_name : String) where
  plan_existing-At :
      (b : RoleBinding) (r : Resolved) (e : Option (RoleAssignment A))
      → At (rank t) (plan_existing id_of kind t subject_key subject_name b r e)
  unfolding plan_existing
  plan_existing-At b r none = ((refl, refl), refl)
  plan_existing-At b r (some e) = update_if-At _ t subject_key _ _ refl

  pub plan_bindings-At :
      (bindings : Dict (List (RoleAssignment A))) (subject_id : Option String)
      (roles : List RoleBinding) (r : Resolved)
      → All
          (At (rank t))
          (plan_bindings id_of kind t bindings subject_key subject_id subject_name roles r).1
  unfolding plan_bindings plan_role_binding
  plan_bindings-At bindings subject_id roles r =
      each_step-All (At (rank t)) _ roles r (λ b r. plan_existing-At b r _)
