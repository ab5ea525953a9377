-- ===== src/Tests/Manifest.antt =====
-- A small manifest, its order, its plan and its apply, on concrete inputs.
use axiam_python_sdk.Base.{
  All, String, ◌≡◌, refl, sym, ap, Bool, true, false, Option, none, some, List, [], ◌∷◌, ◌==◌, ◌++◌,
}
use axiam_python_sdk.Json.{Value, Fields, null}
use axiam_python_sdk.Text.{is_blank}
use axiam_python_sdk.Manifest.{
  ResourceSpec, PermissionSpec, RoleSpec, GroupSpec, ScopedRoleBinding, scoped, UserSpec,
  ManagementManifest,
}
use axiam_python_sdk.Manifest.Order.{ordered, parents_of, topological_order}
use axiam_python_sdk.Manifest.Order.Ancestry.{Ancestor, Ordered}
use axiam_python_sdk.Manifest.Order.Acyclic.{topological_order_iff}
use axiam_python_sdk.Manifest.Validate.{validate}
use axiam_python_sdk.Manifest.Validate.Fitting.{Fits}
use axiam_python_sdk.Manifest.Validate.Sound.{validate_iff}
use axiam_python_sdk.Manifest.Models.{Group, Permission, RoleAssignment, Snapshot}
use axiam_python_sdk.Manifest.Plan.{
  PlannedAction, create, no_change, group_role, of_binding, of_permission, permission, to_group,
  to_user, error, is_complete, changed_count,
}
use axiam_python_sdk.Manifest.Engine.{
  Resolved, nothing_resolved, Assignment, Previous, AssignRequest, Step, Work, noop,
  create_permission, create_role, Request, post_role, assign, unassign, Created, Reply, accepted,
  refused, Server, rebind_failed,
}
use axiam_python_sdk.Manifest.Engine.Running.{execute, rebind, stated_body, previous_body}
use axiam_python_sdk.Manifest.Engine.Stops.{unattempted, execute-append}
use axiam_python_sdk.Manifest.Engine.Rebound.{Leaves, Says, rebind-Says}
use axiam_python_sdk.Manifest.Compute.{Part, step_at, Planned, push, computed, unknown_resource}
use axiam_python_sdk.Manifest.Compute.Bindings.{plan_role_binding}
use axiam_python_sdk.Manifest.Compute.Parts.{compute}
use axiam_python_sdk.Manifest.Compute.Computes.{ParentStated, compute-computed}
use axiam_python_sdk.Manifest.Compute.Ascending.{Laid, compute-Laid}
use axiam_python_sdk.Manifest.Api.{plan, apply}
use axiam_python_sdk.Manifest.Api.Converged.{Untouched, apply-converged}

abbrev resource_spec : String → Option String → ResourceSpec
resource_spec key parent = record {
  key = key;
  name = key;
  resource_type = "folder";
  parent = parent;
  scopes = [];
  metadata = none;
}

-- a child that is declared before its parent
abbrev tree : List ResourceSpec
tree = resource_spec "leaf" (some "root") ∷ resource_spec "root" none ∷ []

topological_order_iff_example : ¬ Ancestor (parents_of tree) "leaf" "leaf"
unfolding topological_order axiam_python_sdk.Manifest.Order.member axiam_python_sdk.Dict.lookup
    axiam_python_sdk.Manifest.Order.add_parents axiam_python_sdk.Dict.put
topological_order_iff_example = (topological_order_iff tree).0 ("root" ∷ "leaf" ∷ [], refl) "leaf"

abbrev read_docs : PermissionSpec
read_docs = record { key = "p"; action = "docs:read"; description = "reads" }

abbrev reader : RoleSpec
reader = record {
  key = "r";
  name = "reader";
  description = "a reader";
  is_global = false;
  grants = (record { permission = "p"; effect = none; scopes = [] }) ∷ [];
}

-- the group holds the role below one resource
abbrev at_leaf : ScopedRoleBinding
at_leaf = record { role = "r"; resource = "leaf"; inherit = true }

abbrev staff : GroupSpec
staff = record { key = "g"; name = "staff"; description = "everyone"; roles = scoped at_leaf ∷ [] }

abbrev desired : ManagementManifest
desired = record {
  resources = tree;
  permissions = read_docs ∷ [];
  roles = reader ∷ [];
  groups = staff ∷ [];
  users = [];
  service_accounts = [];
  network = none;
}

validate_iff_example : Fits desired
unfolding validate axiam_python_sdk.Manifest.Order.member axiam_python_sdk.Dict.lookup
    axiam_python_sdk.Manifest.Order.add_parents axiam_python_sdk.Dict.put
validate_iff_example = (validate_iff desired).0 refl

abbrev read_docs_now : Permission
read_docs_now = record {
  action = "docs:read";
  created_at = "";
  description = "reads";
  id = "p-1";
  tenant_id = "t";
  updated_at = "";
}

-- a tenant that has the permission and nothing else
abbrev snapshot : Snapshot
snapshot = record {
  resources = [];
  scopes = [];
  permissions = read_docs_now ∷ [];
  roles = [];
  groups = [];
  users = [];
  service_accounts = [];
  role_grants = [];
  role_user_bindings = [];
  role_group_bindings = [];
  role_service_account_bindings = [];
  group_members = [];
}

abbrev never_same : Value → Fields → Bool
never_same v d = false

-- what plan returns for it
abbrev steps : List Planned
steps = elim (compute snapshot never_same desired refl) [ computed part ↦ part.1 | _ ↦ [] ]

abbrev resolved : Resolved
resolved = record nothing_resolved { permissions = ("p", "p-1") ∷ [] }

compute-Laid_example :
    (order : List String) × (topological_order tree ≡ ordered order)
    × Ordered (parents_of tree) [] order
    × Laid order steps
unfolding compute axiam_python_sdk.Manifest.Order.member axiam_python_sdk.Dict.lookup
    axiam_python_sdk.Manifest.Order.add_parents axiam_python_sdk.Dict.put
compute-Laid_example = compute-Laid never_same snapshot desired refl resolved steps refl

abbrev blank_parent : Option String → Bool
blank_parent none = false
blank_parent (some key) = is_blank key

stated_parents : All ParentStated tree
stated_parents = (λ p e. sym (ap blank_parent e), (λ p e. sym (ap blank_parent e), tt))

compute-computed_example :
    (part : Part) × (compute snapshot never_same desired refl ≡ computed part)
unfolding validate axiam_python_sdk.Manifest.Order.member axiam_python_sdk.Dict.lookup
    axiam_python_sdk.Manifest.Order.add_parents axiam_python_sdk.Dict.put
compute-computed_example = compute-computed never_same snapshot desired refl refl stated_parents

abbrev everyone : Group
everyone = record {
  created_at = "";
  description = "everyone";
  id = "g-1";
  metadata = null;
  name = "staff";
  tenant_id = "t";
  updated_at = "";
}

-- the group holds the role in the whole tenant
abbrev tenant_wide : RoleAssignment Group
tenant_wide = record { subject = everyone; inherit = true; resource_id = none; tenant_scope = none }

-- the group and the role exist, and the resource that the binding names does not
abbrev leafless : Resolved
leafless = record nothing_resolved { roles = ("r", "r-1") ∷ []; groups = ("g", "g-1") ∷ [] }

-- A binding at a resource that is still to be created is planned as no change where the subject holds
-- the role in the whole tenant.
plan_role_binding_pending :
    plan_role_binding
      (λ g. g.id)
      to_group
      group_role
      (("r-1", tenant_wide ∷ []) ∷ [])
      "g"
      (some "g-1")
      "staff"
      (scoped at_leaf)
      leafless
    ≡ push no_change group_role "g" (of_binding "r" to_group "staff") (step_at "g" noop)
unfolding plan_role_binding axiam_python_sdk.Dict.lookup
plan_role_binding_pending = refl

-- A resource whose parent is the empty text passes validate, and _compute then fails on it.
abbrev blank : ManagementManifest
blank = record desired { resources = resource_spec "leaf" (some "") ∷ [] }

validate-blank : validate blank ≡ none
unfolding validate axiam_python_sdk.Manifest.Order.member axiam_python_sdk.Dict.lookup
    axiam_python_sdk.Manifest.Order.add_parents axiam_python_sdk.Dict.put
validate-blank = refl

compute-blank : compute snapshot never_same blank refl ≡ unknown_resource ""
unfolding compute axiam_python_sdk.Manifest.Order.member axiam_python_sdk.Dict.lookup
    axiam_python_sdk.Manifest.Order.add_parents axiam_python_sdk.Dict.put
compute-blank = refl

-- A server that refuses one kind of request and numbers what it makes by its state.
abbrev roleless : Server (List Request)
roleless request s = elim request [
  | post_role name description is_global ↦ (s, refused (error "no roles"))
  | other ↦ (other ∷ s, accepted (record { id = "new"; client_secret = none }))
]

abbrev new_permission : Planned
new_permission =
    push create permission "p" (of_permission "docs:read")
      (step_at "p" (create_permission "docs:read" "reads"))

abbrev new_role : Planned
new_role =
    push create permission "r" (of_permission "reader")
      (step_at "r" (create_role "reader" "a reader" false))

execute-append_example :
    execute roleless (new_permission ∷ new_role ∷ new_permission ∷ []) nothing_resolved []
    ≡ record (execute roleless (new_permission ∷ new_role ∷ []) nothing_resolved []) {
      steps =
          (execute roleless (new_permission ∷ new_role ∷ []) nothing_resolved []).steps
          ++ unattempted new_permission ∷ [];
    }
unfolding is_complete axiam_python_sdk.Manifest.Engine.Running.execute_from
execute-append_example =
    (execute-append roleless (new_permission ∷ new_role ∷ []) (new_permission ∷ []) nothing_resolved
        []).1
      refl

-- A server that holds one binding, and refuses one at a resource that is gone.
abbrev settle_binding :
    Bool → AssignRequest → Option AssignRequest → Option AssignRequest × Reply Created
settle_binding true body s = (s, refused (error "gone"))
settle_binding false body s = (some body, accepted (record { id = ""; client_secret = none }))

abbrev is_gone : Option String → Bool
is_gone none = false
is_gone (some id) = id == "gone"

abbrev one_binding : Server (Option AssignRequest)
one_binding request s = elim request [
  | assign kind role_id body ↦ settle_binding (is_gone body.resource_id) body s
  | unassign kind role_id subject_id resource_id ↦
      (none, accepted (record { id = ""; client_secret = none }))
  | _ ↦ (s, refused (error "unused"))
]

settle_binding-Leaves :
    (refuses : Bool) (body : AssignRequest) (s : Option AssignRequest)
    → Leaves (λ s. s) (some body) s (settle_binding refuses body s)
settle_binding-Leaves true body s = refl
settle_binding-Leaves false body s = refl

abbrev wanted : Assignment
wanted = record { role = "r"; subject = "g"; resource = some "leaf"; inherit = false }

abbrev before : Previous
before = record { resource_id = none; inherit = true; tenant_scope = some ("t" ∷ []) }

-- the new resource is gone, so that the previous binding is restored
rebind-Says_example :
    Says
      (stated_body "g-1" (some "gone") wanted before.tenant_scope)
      (previous_body "g-1" before)
      (some (previous_body "g-1" before))
      (rebind_failed (error "gone") none)
unfolding rebind
rebind-Says_example =
    rebind-Says one_binding to_group "r-1" "g-1" (λ s. s)
      (λ body s same. settle_binding-Leaves (is_gone body.resource_id) body s)
      (λ resource_id s. refl) nothing_resolved (some (previous_body "g-1" before)) (some "gone")
      wanted before refl

-- A manifest that states what the tenant has.
abbrev stated : ManagementManifest
stated = record {
  resources = [];
  permissions = read_docs ∷ [];
  roles = [];
  groups = [];
  users = [];
  service_accounts = [];
  network = none;
}

abbrev read : List Request → List Request × Reply Snapshot
read s = (s, accepted snapshot)

abbrev idle : PlannedAction
idle = (push no_change permission "p" (of_permission "docs:read") (step_at "p" noop)).0

apply-converged_example :
    Untouched never_same read roleless []
      (idle ∷ [])
      (apply never_same read roleless stated refl [])
unfolding plan axiam_python_sdk.Manifest.Order.member axiam_python_sdk.Manifest.Plan.is_converged
apply-converged_example =
    apply-converged never_same read roleless stated refl [] (idle ∷ []) refl refl
