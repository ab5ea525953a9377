-- ===== src/Manifest/Compute/Ascending.antt =====
-- Every plan comes in the order of the contract, with its resources' parents first.
use axiam_python_sdk.Base.{
  ℕ, suc, ◌≤◌, String, ◌≡◌, refl, sym, ap, subst, ◌∙◌, Bool, Option, none, some, List, [], ◌∷◌,
  ◌++◌, map, arith, All,
}
use axiam_python_sdk.Json.{Value, Fields}
use axiam_python_sdk.Dict.{Dict, lookup}
use axiam_python_sdk.Manifest.{
  ResourceSpec, GroupSpec, UserSpec, ServiceAccountSpec, ManagementManifest,
}
use axiam_python_sdk.Manifest.Order.Ancestry.{Ordered}
use axiam_python_sdk.Manifest.Order.Acyclic.{topological_order-Ordered}
use axiam_python_sdk.Manifest.Order.{parents_of, Order, ordered, cycle, stuck, topological_order}
use axiam_python_sdk.Manifest.Models.{Snapshot}
use axiam_python_sdk.Manifest.Plan.{group_role, user_role, service_account_role}
use axiam_python_sdk.Manifest.Engine.{Resolved}
use axiam_python_sdk.Manifest.Compute.{
  Planned, Part, each_step, each_part, ◌▷◌, Computed, computed, unknown_resource, no_order,
}
use axiam_python_sdk.Manifest.Compute.Parts.{
  plan_scopes, plan_permission, plan_role, plan_grants, plan_group, plan_group_roles, plan_user,
  plan_user_roles, plan_service_account, plan_service_account_roles, plan_memberships, plan_rest,
  after_resource, with_spec, plan_resources, compute_ordered, compute,
}
use axiam_python_sdk.Manifest.Compute.Arranged.{
  rank, Marked, At, each_step-All, each_part-All, plan_resource-At, plan_resource-key,
  plan_scopes-At, plan_permission-At, plan_role-At, plan_grants-At, plan_group-At, plan_user-At,
  plan_service_account-At, plan_memberships-At, plan_bindings-At,
}

-- Steps whose targets come in the order of the contract, from a place on.
abbrev pub Ascending : ℕ → List Planned → Type 0
Ascending n [] = Unit
Ascending n ((action, step) ∷ rest) =
    Marked (action, step) × (n ≤ rank action.target) × Ascending (rank action.target) rest

Ascending-later : (m n : ℕ) (xs : List Planned) → m ≤ n → Ascending n xs → Ascending m xs
Ascending-later m n [] le a = tt
Ascending-later m n ((action, step) ∷ xs) le (marked, from, a) = (marked, omega arith, a)

At-Ascending :
    (n : ℕ) (xs ys : List Planned) → All (At n) xs → Ascending n ys → Ascending n (xs ++ ys)
At-Ascending n [] ys all a = a
At-Ascending n ((action, step) ∷ xs) ys ((marked, here), all) a = (
  marked,
  omega (arith, here),
  subst (λ k. Ascending k (xs ++ ys)) (sym here) (At-Ascending n xs ys all a),
)

All-Ascending : (n : ℕ) (xs : List Planned) → All (At n) xs → Ascending n xs
All-Ascending n [] all = tt
All-Ascending n ((action, step) ∷ xs) ((marked, here), all) =
    (marked, omega (arith, here), subst (λ k. Ascending k xs) (sym here) (All-Ascending n xs all))

-- A part whose steps come in order from a place on.
record Rises (n : ℕ) (q : Resolved → Part) : Type 0 where
  from : (r : Resolved) → Ascending n (q r).1

before-Rises :
    (n : ℕ) (p q : Resolved → Part)
    → ((r : Resolved) → All (At n) (p r).1)
    → Rises (suc n) q
    → Rises n (p ▷ q)
before-Rises n p q here later = record {
  from = λ r.
      At-Ascending n (p r).1 (q (p r).0).1 (here r)
        (Ascending-later n (suc n) (q (p r).0).1 (omega arith) (later.from (p r).0));
}

module _ {A : Type 0} (n : ℕ) {q : Resolved → Part} where
  -- a loop at one place, before parts at later places
  steps-Rises :
      (turn : A → Resolved → Resolved × Planned) (xs : List A)
      → ((x : A) (r : Resolved) → At n (turn x r).1)
      → Rises (suc n) q
      → Rises n (each_step turn xs ▷ q)
  steps-Rises turn xs here later =
      before-Rises n (each_step turn xs) q (λ r. each_step-All (At n) turn xs r here) later

  parts-Rises :
      (turn : A → Resolved → Part) (xs : List A)
      → ((x : A) (r : Resolved) → All (At n) (turn x r).1)
      → Rises (suc n) q
      → Rises n (each_part turn xs ▷ q)
  parts-Rises turn xs here later =
      before-Rises n (each_part turn xs) q (λ r. each_part-All (At n) turn xs r here) later

module _ (snapshot : Snapshot) where
  group_roles-At :
      (spec : GroupSpec) (r : Resolved) → All (At 6) (plan_group_roles snapshot spec r).1
  unfolding plan_group_roles
  group_roles-At spec r = plan_bindings-At _ _ group_role spec.key spec.name _ _ spec.roles r

  user_roles-At : (spec : UserSpec) (r : Resolved) → All (At 8) (plan_user_roles snapshot spec r).1
  unfolding plan_user_roles
  user_roles-At spec r = plan_bindings-At _ _ user_role spec.key spec.username _ _ spec.roles r

  account_roles-At :
      (spec : ServiceAccountSpec) (r : Resolved)
      → All (At 10) (plan_service_account_roles snapshot spec r).1
  unfolding plan_service_account_roles
  account_roles-At spec r =
      plan_bindings-At _ _ service_account_role spec.key spec.name _ _ spec.roles r

  last-Rises : (us : List UserSpec) → Rises 11 (each_part (plan_memberships snapshot) us)
  last-Rises us = record {
    from = λ r.
        All-Ascending 11 _
          (each_part-All (At 11) (plan_memberships snapshot) us r (plan_memberships-At snapshot));
  }

  plan_rest-Rises : (m : ManagementManifest) → Rises 1 (plan_rest snapshot m)
  unfolding plan_rest
  plan_rest-Rises m = parts-Rises 1 (plan_scopes snapshot) m.resources (plan_scopes-At snapshot) (
      steps-Rises 2 (plan_permission snapshot) m.permissions (plan_permission-At snapshot) (
        steps-Rises 3 (plan_role snapshot) m.roles (plan_role-At snapshot) (
          parts-Rises 4 (plan_grants snapshot) m.roles (plan_grants-At snapshot) (
            steps-Rises 5 (plan_group snapshot) m.groups (plan_group-At snapshot) (
              parts-Rises 6 (plan_group_roles snapshot) m.groups group_roles-At (
                steps-Rises 7 (plan_user snapshot) m.users (plan_user-At snapshot) (
                  parts-Rises 8 (plan_user_roles snapshot) m.users user_roles-At (
                    parts-Rises 9 (plan_service_account snapshot) m.service_accounts
                      (plan_service_account-At snapshot)
                      (parts-Rises 10 (plan_service_account_roles snapshot) m.service_accounts
                        account_roles-At (last-Rises m.users))))))))))

-- What a plan is for ordered resource keys: a step for each, in their order, and then the others,
-- in the order of their targets.
pub record Laid (keys : List String) (steps : List Planned) : Type 0 where
  pub first : List Planned
  pub rest : List Planned
  pub split : steps ≡ first ++ rest
  pub named : map (λ p. p.0.key) first ≡ keys
  pub resources : All (At 0) first
  pub others : Ascending 1 rest

add-Laid :
    (p : Planned) (key : String) (keys : List String) (steps : List Planned)
    → At 0 p
    → p.0.key ≡ key
    → Laid keys steps
    → Laid (key ∷ keys) (p ∷ steps)
add-Laid p key keys steps here named l = record {
  first = p ∷ l.first;
  rest = l.rest;
  split = ap (λ xs. p ∷ xs) l.split;
  named = ap (λ k. k ∷ map (λ p. p.0.key) l.first) named ∙ ap (λ ks. key ∷ ks) l.named;
  resources = (here, l.resources);
  others = l.others;
}

abbrev LaidOut : List String → Computed → Type 0
LaidOut keys (computed (r, steps)) = Laid keys steps
LaidOut keys (unknown_resource k) = Unit
LaidOut keys (no_order o) = Unit

after_resource-LaidOut :
    (key : String) (keys : List String) (p : Planned) (c : Computed)
    → At 0 p
    → p.0.key ≡ key
    → LaidOut keys c
    → LaidOut (key ∷ keys) (after_resource p c)
after_resource-LaidOut key keys p (computed (r, steps)) here named l =
    add-Laid p key keys steps here named l
after_resource-LaidOut key keys p (unknown_resource k) here named l = tt
after_resource-LaidOut key keys p (no_order o) here named l = tt

with_spec-LaidOut :
    (keys : List String) (key : String) (o : Option ResourceSpec) (next : ResourceSpec → Computed)
    → ((spec : ResourceSpec) → LaidOut keys (next spec))
    → LaidOut keys (with_spec key o next)
with_spec-LaidOut keys key none next laid = tt
with_spec-LaidOut keys key (some spec) next laid = laid spec

module _ (same_metadata : Value → Fields → Bool) (snapshot : Snapshot) where
  plan_resources-LaidOut :
      (specs : Dict ResourceSpec) (keys : List String) (m : ManagementManifest) (r : Resolved)
      → LaidOut keys (plan_resources snapshot same_metadata specs keys (plan_rest snapshot m) r)
  unfolding plan_resources
  plan_resources-LaidOut specs [] m r = record {
    first = [];
    rest = (plan_rest snapshot m r).1;
    split = refl;
    named = refl;
    resources = tt;
    others = (plan_rest-Rises snapshot m).from r;
  }
  plan_resources-LaidOut specs (key ∷ keys) m r =
      with_spec-LaidOut (key ∷ keys) key (lookup key specs) _ (λ spec.
        after_resource-LaidOut key keys _ _ (plan_resource-At same_metadata snapshot spec key r)
          (plan_resource-key same_metadata snapshot spec key r)
          (plan_resources-LaidOut specs keys m _))

  abbrev Planning : ManagementManifest → Computed → Type 0
  Planning m c =
      (r : Resolved) (steps : List Planned)
      → c ≡ computed (r, steps)
      → (order : List String) × (topological_order m.resources ≡ ordered order)
        × Ordered (parents_of m.resources) [] order
        × Laid order steps

  compute_ordered-Planning :
      (m : ManagementManifest) (o : Order)
      → topological_order m.resources ≡ o
      → Planning m (compute_ordered snapshot same_metadata m o)
  compute_ordered-Planning m (ordered order) e r steps result = (
    order,
    e,
    (topological_order-Ordered m.resources order e).0,
    subst (LaidOut order) result (plan_resources-LaidOut _ order m _),
  )
  compute_ordered-Planning m (cycle k) e r steps result = absurd (ground arith)
  compute_ordered-Planning m stuck e r steps result = absurd (ground arith)

  -- The plan of a manifest without a network section has one step for each key of topological_order's answer, in that order, so that a resource
  -- comes after its parent, and then steps in the order scopes, permissions, roles, grants, groups,
  -- group roles, users, user roles, service accounts, their roles, group members. Each step's action
  -- has the step's key, and says no change exactly where the step does nothing.
  pub compute-Laid :
      (m : ManagementManifest) (no_network : m.network ≡ none) (r : Resolved) (steps : List Planned)
      → compute snapshot same_metadata m no_network ≡ computed (r, steps)
      → (order : List String) × (topological_order m.resources ≡ ordered order)
        × Ordered (parents_of m.resources) [] order
        × Laid order steps
  unfolding compute
  compute-Laid m no_network r steps result = compute_ordered-Planning m _ refl r steps result
