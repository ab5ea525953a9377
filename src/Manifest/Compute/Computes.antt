-- ===== src/Manifest/Compute/Computes.antt =====
-- The steps of _compute (management/manifest/_engine.py) where every key of the order has its resource.
use axiam_python_sdk.Base.{
  String, ◌≡◌, refl, sym, ap, ◌∙◌, subst, Bool, false, none, some, List, [], ◌∷◌, map, All, if_lem,
  Bool-cases, inl, inr, arith, ◌==◌, eq_iff,
}
use axiam_python_sdk.Json.{Value, Fields}
use axiam_python_sdk.Dict.{Dict, lookup, put}
use axiam_python_sdk.Dict.Laws.{lookup-put}
use axiam_python_sdk.Text.{is_blank}
use axiam_python_sdk.Manifest.{ResourceSpec, ManagementManifest}
use axiam_python_sdk.Manifest.Order.{member, Order, ordered, topological_order}
use axiam_python_sdk.Manifest.Order.Acyclic.{topological_order_iff}
use axiam_python_sdk.Manifest.Order.Declared.{topological_order-All}
use axiam_python_sdk.Manifest.Validate.{validate}
use axiam_python_sdk.Manifest.Validate.Fitting.{In, ParentFits}
use axiam_python_sdk.Manifest.Validate.Sound.{validate_iff}
use axiam_python_sdk.Manifest.Models.{Snapshot}
use axiam_python_sdk.Manifest.Engine.{Resolved, nothing_resolved}
use axiam_python_sdk.Manifest.Compute.{Part, Computed, computed, add_specs, plan_resource}
use axiam_python_sdk.Manifest.Compute.Parts.{
  plan_rest, after_resource, with_spec, plan_resources, compute_ordered, compute,
}

-- A parent that is stated is not the empty text.
abbrev pub ParentStated : ResourceSpec → Type 0
ParentStated r = (parent : String) → r.parent ≡ some parent → is_blank parent ≡ false

abbrev Known : Dict ResourceSpec → String → Type 0
Known specs key = (spec : ResourceSpec) × (lookup key specs ≡ some spec)

put-Known :
    (j k : String) (r : ResourceSpec) (d : Dict ResourceSpec) → Known d k → Known (put j r d) k
put-Known j k r d (spec, h) =
    subst (λ o. (spec : ResourceSpec) × (o ≡ some spec)) (sym (lookup-put j k r d))
      (if_lem (λ o. (spec : ResourceSpec) × (o ≡ some spec)) (j == k) (λ same. (r, refl))
        (λ differs. (spec, h)))

add_specs_keeps :
    (rs : List ResourceSpec) (d : Dict ResourceSpec) (k : String)
    → Known d k
    → Known (add_specs rs d) k
unfolding add_specs
add_specs_keeps [] d k h = h
add_specs_keeps (r ∷ rs) d k h = add_specs_keeps rs (put r.key r d) k (put-Known r.key k r d h)

add_specs-Known :
    (rs : List ResourceSpec) (d : Dict ResourceSpec) (k : String)
    → In (map (λ r. r.key) rs) k
    → Known (add_specs rs d) k
unfolding add_specs member
add_specs-Known [] d k h = absurd (ground arith)
add_specs-Known (r ∷ rs) d k h = elim (Bool-cases (r.key == k)) [
  | inl same ↦
      add_specs_keeps rs (put r.key r d) k (r, ground (arith, lookup-put r.key k r d, same))
  | inr differs ↦ add_specs-Known rs (put r.key r d) k (ground (arith, h, differs))
]

each-In :
    (rs : List ResourceSpec) (keys : List String)
    → ((k : String) → In (map (λ r. r.key) rs) k → In keys k)
    → All (λ r. In keys r.key) rs
unfolding member
each-In [] keys within = tt
each-In (r ∷ rs) keys within = (
  within r.key (ground (arith, eq_iff r.key r.key)),
  each-In rs keys (λ k h. within k (ground (arith, h))),
)

parents-In :
    (keys : List String) (rs : List ResourceSpec)
    → All (ParentFits keys) rs
    → All ParentStated rs
    → All (λ r. (p : String) → r.parent ≡ some p → In keys p) rs
parents-In keys [] fits stated = tt
parents-In keys (r ∷ rs) (fit, fits) (here, stated) =
    (λ p e. fit p e (here p e), parents-In keys rs fits stated)

abbrev Ends : Computed → Type 0
Ends c = (part : Part) × (c ≡ computed part)

module _ (same_metadata : Value → Fields → Bool) (snapshot : Snapshot) where
  plan_resources-Ends :
      (specs : Dict ResourceSpec) (keys : List String) (rest : Resolved → Part) (r : Resolved)
      → All (Known specs) keys
      → Ends (plan_resources snapshot same_metadata specs keys rest r)
  unfolding plan_resources
  plan_resources-Ends specs [] rest r all = (rest r, refl)
  plan_resources-Ends specs (key ∷ keys) rest r ((spec, found), all) =
      let next : ResourceSpec → Computed = λ spec.
        let (r, planned) = plan_resource same_metadata snapshot spec key r in
        after_resource planned (plan_resources snapshot same_metadata specs keys rest r) in
      let turn = plan_resource same_metadata snapshot spec key r in
      let (part, same) = plan_resources-Ends specs keys rest turn.0 all in
      (
        (part.0, turn.1 ∷ part.1),
        ap (λ o. with_spec key o next) found ∙ ap (after_resource turn.1) same,
      )

  compute_ordered-Ends :
      (m : ManagementManifest) (o : Order) (keys : List String)
      → o ≡ ordered keys
      → All (Known (add_specs m.resources [])) keys
      → Ends (compute_ordered snapshot same_metadata m o)
  compute_ordered-Ends m o keys e all =
      subst (λ o. Ends (compute_ordered snapshot same_metadata m o)) (sym e)
        (plan_resources-Ends (add_specs m.resources []) keys (plan_rest snapshot m) nothing_resolved
          all)

  -- Of a manifest that validate passes, without a network section and whose stated parents are not the
  -- empty text, _compute returns the steps and does not end in an error.
  pub compute-computed :
      (m : ManagementManifest) (no_network : m.network ≡ none)
      → validate m ≡ none
      → All ParentStated m.resources
      → (part : Part) × (compute snapshot same_metadata m no_network ≡ computed part)
  unfolding compute
  compute-computed m no_network valid stated =
      let fits = (validate_iff m).0 valid in
      let keys = map (λ r. r.key) m.resources in
      let (order, found) = (topological_order_iff m.resources).1 fits.acyclic in
      let all =
        topological_order-All (In keys) m.resources order (each-In m.resources keys (λ k h. h))
          (parents-In keys m.resources fits.references.0 stated) found in
      compute_ordered-Ends m (topological_order m.resources) order found (known order all)
    where
      known :
          (ks : List String)
          → All (In (map (λ r. r.key) m.resources)) ks
          → All (Known (add_specs m.resources [])) ks
      known [] all = tt
      known (k ∷ ks) (here, all) = (add_specs-Known m.resources [] k here, known ks all)
