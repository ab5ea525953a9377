-- ===== src/Manifest/Validate/Sound.antt =====
-- validate passes exactly the manifests that can be reconciled.
use axiam_python_sdk.Base.{
  String, ◌≡◌, ◌≢◌, ◌↔◌, refl, not, Option, none, some, List, [], ◌∷◌, map, arith, All,
}
use axiam_python_sdk.Manifest.{NetworkSpec, ManagementManifest}
use axiam_python_sdk.Manifest.Order.{
  member, Order, ordered, cycle, stuck, parents_of, topological_order,
}
use axiam_python_sdk.Manifest.Order.Ancestry.{Ancestor}
use axiam_python_sdk.Manifest.Order.Acyclic.{topological_order_finishes, topological_order_iff}
use axiam_python_sdk.Manifest.Validate.Fitting.{
  ◌⊗◌, In, BindingsFit, NetworkFits, KeysOnce, ReferencesFit, Fits,
}
use axiam_python_sdk.Manifest.Validate.{
  ◌⨾◌, Problem, undeclared_permission, undeclared_scope, undeclared_group, raised, each, report,
  all_scope_keys, validate_role_bindings, grant_problems, validate_network, order_problems,
  declared_in, duplicate_problems, reference_problems, validate,
}
use axiam_python_sdk.Manifest.Validate.Checks.{
  iff_trans, append_iff, needs_iff, each_iff, Once-iff, bindings_iff, parent_iff, segments_iff,
  profiles_iff,
}

network_iff : (network : Option NetworkSpec) → (validate_network network ≡ []) ↔ NetworkFits network
unfolding validate_network
network_iff none = (λ e. tt, λ u. refl)
network_iff (some network) =
    iff_trans
      (append_iff (Once-iff "network segment" (map (λ s. s.key) network.segments)) (
        append_iff (segments_iff [] network.segments)
          (profiles_iff (map (λ s. s.key) network.segments) [] network.profiles)))
      (
        λ (keys, ((natural, filters), profiles)). (keys, (natural, (filters, profiles))),
        λ (keys, (natural, (filters, profiles))). (keys, ((natural, filters), profiles)),
      )

ordered_iff :
    (result : Order)
    → result ≢ stuck
    → (order_problems result ≡ []) ↔ ((order : List String) × (result ≡ ordered order))
ordered_iff (ordered order) done = (λ e. (order, refl), λ u. refl)
ordered_iff (cycle k) done = (λ e. ground arith, λ (order, e). ground arith)
ordered_iff stuck done = absurd (done refl)

passes_when_none : (problems : List Problem) → (raised problems ≡ none) ↔ (problems ≡ [])
passes_when_none [] = (λ e. refl, λ e. refl)
passes_when_none (p ∷ ps) = (λ e. ground arith, λ e. ground arith)

module _ (m : ManagementManifest) where
  duplicates_iff : (duplicate_problems m ≡ []) ↔ KeysOnce m
  unfolding duplicate_problems
  duplicates_iff = append_iff (Once-iff "resource" (map (λ r. r.key) m.resources)) (
      append_iff (Once-iff "scope" (all_scope_keys m.resources)) (
        append_iff (Once-iff "permission" (map (λ p. p.key) m.permissions)) (
          append_iff (Once-iff "role" (map (λ r. r.key) m.roles)) (
            append_iff (Once-iff "group" (map (λ g. g.key) m.groups)) (
              append_iff (Once-iff "user" (map (λ u. u.key) m.users))
                (Once-iff "service_account" (map (λ s. s.key) m.service_accounts)))))))

  roles_iff :
      (each
          (λ r.
            each
              (grant_problems (map (λ p. p.key) m.permissions) (all_scope_keys m.resources) r.key)
              r.grants)
          m.roles
        ≡ [])
      ↔ All
          (λ r.
            All
              (λ g.
                In (map (λ p. p.key) m.permissions) g.permission
                × All (In (all_scope_keys m.resources)) g.scopes)
              r.grants)
          m.roles
  roles_iff = each_iff _ _ m.roles (λ r. each_iff _ _ r.grants (λ g.
      append_iff (needs_iff _ (undeclared_permission r.key g.permission))
        (each_iff _ _ g.scopes (λ s. needs_iff _ (undeclared_scope r.key s)))))

  users_iff :
      (each
          (λ u.
            validate_role_bindings (declared_in m) "user" u.key [] u.roles
            ⨾ each
                (λ g.
                  report (not (member g (map (λ g. g.key) m.groups))) (undeclared_group u.key g))
                u.groups)
          m.users
        ≡ [])
      ↔ All
          (λ u. BindingsFit (declared_in m) u.roles × All (In (map (λ g. g.key) m.groups)) u.groups)
          m.users
  users_iff = each_iff _ _ m.users (λ u.
      append_iff (bindings_iff (declared_in m) "user" u.key [] u.roles)
        (each_iff _ _ u.groups (λ g. needs_iff _ (undeclared_group u.key g))))

  references_iff : (reference_problems m ≡ []) ↔ ReferencesFit m
  unfolding reference_problems
  references_iff =
      append_iff (each_iff _ _ m.resources (parent_iff (declared_in m).resource_keys)) (
        append_iff roles_iff (
          append_iff
            (each_iff _ _ m.groups (λ g. bindings_iff (declared_in m) "group" g.key [] g.roles))
            (append_iff users_iff (
              each_iff _ _ m.service_accounts
                (λ s. bindings_iff (declared_in m) "service_account" s.key [] s.roles)))))

  problems_iff :
      (duplicate_problems m
          ⨾ reference_problems m
          ⨾ validate_network m.network
          ⨾ order_problems (topological_order m.resources)
        ≡ [])
      ↔ (KeysOnce m
          ⊗ ReferencesFit m
          ⊗ NetworkFits m.network
          ⊗ ((k : String) → ¬ Ancestor (parents_of m.resources) k k))
  problems_iff = append_iff duplicates_iff (
      append_iff references_iff (
        append_iff (network_iff m.network) (
          iff_trans (ordered_iff _ (topological_order_finishes m.resources))
            (topological_order_iff m.resources))))

  passes_iff : (validate m ≡ none) ↔ (
      duplicate_problems m
        ⨾ reference_problems m
        ⨾ validate_network m.network
        ⨾ order_problems (topological_order m.resources)
      ≡ [])
  unfolding validate
  passes_iff = passes_when_none _

  -- validate passes a manifest exactly when each key is declared once, each reference names something
  -- declared, but for a parent that is the empty text, of which it asks nothing, each subject binds a
  -- role at most once and no global role without inheritance, the network section is as the contract
  -- asks, and no resource is its own ancestor.
  pub validate_iff : (validate m ≡ none) ↔ Fits m
  validate_iff = iff_trans passes_iff (
      iff_trans problems_iff (
        λ (keys, (references, (network, acyclic))). record {
          keys = keys;
          references = references;
          network = network;
          acyclic = acyclic;
        },
        λ r. (r.keys, (r.references, (r.network, r.acyclic))),
      ))
