-- ===== src/Manifest/Validate/Fitting.antt =====
-- What validate asks of a manifest, said of the manifest.
use axiam_python_sdk.Base.{
  String, ◌≡◌, ◌≢◌, Bool, true, false, Option, none, some, List, [], ◌∷◌, map, All,
}
use axiam_python_sdk.Dict.{lookup}
use axiam_python_sdk.Text.{is_blank}
use axiam_python_sdk.Manifest.{
  ResourceSpec, RoleBinding, plain, scoped, stated, NetworkSegmentSpec, NetworkProfileSpec,
  NetworkSpec, ManagementManifest,
}
use axiam_python_sdk.Manifest.Order.{member, parents_of}
use axiam_python_sdk.Manifest.Order.Ancestry.{Ancestor}
use axiam_python_sdk.Manifest.Validate.{
  all_scope_keys, role_key, is_global_role, Declared, same_place, declared_in,
}

-- Both of two conditions, with those of a longer chain to the right.
infixr 20 ◌⊗◌
abbrev pub ◌⊗◌ : Type 0 → Type 0 → Type 0
P ⊗ Q = P × Q

-- The elements after those seen, none met before.
abbrev pub Fresh : {A : Type 0} → (A → List A → Bool) → List A → List A → Type 0
Fresh is_in seen [] = Unit
Fresh is_in seen (x ∷ xs) = (is_in x seen ≡ false) × Fresh is_in (x ∷ seen) xs

abbrev pub Once : List String → Type 0
Once keys = Fresh member [] keys

abbrev pub In : List String → String → Type 0
In keys k = member k keys ≡ true

-- A binding at a resource names a declared one, and a global role is inherited.
abbrev pub BindingFits : Declared → RoleBinding → Type 0
BindingFits d (plain role) = Unit
BindingFits d (scoped b) =
    In d.resource_keys b.resource
    × (b.inherit ≡ false → is_global_role (lookup b.role d.role_by_key) ≡ false)

-- The role bindings of one subject: declared roles, each once.
abbrev pub BindingsFit : Declared → List RoleBinding → Type 0
BindingsFit d bindings =
    All (λ b. In d.role_keys (role_key b) × BindingFits d b) bindings × Once (map role_key bindings)

-- A parent that is not blank is declared. A blank one is taken for none, as validate does.
abbrev pub ParentFits : List String → ResourceSpec → Type 0
ParentFits keys r =
    (parent : String) → r.parent ≡ some parent → is_blank parent ≡ false → In keys parent

abbrev pub FilterIdsFit : NetworkSegmentSpec → Type 0
FilterIdsFit s = (names : List String) → s.filter_ids ≡ stated names → Once names

abbrev pub ProfileFits : List String → NetworkProfileSpec → Type 0
ProfileFits segments p = In segments p.segment × (p.termination_action ≢ stated none)

abbrev pub NetworkFits : Option NetworkSpec → Type 0
NetworkFits none = Unit
NetworkFits (some network) =
    Once (map (λ s. s.key) network.segments)
    ⊗ Fresh same_place [] network.segments
    ⊗ All FilterIdsFit network.segments
    ⊗ All (ProfileFits (map (λ s. s.key) network.segments)) network.profiles
    ⊗ Once (map (λ p. p.segment) network.profiles)

module _ (m : ManagementManifest) where
  -- Each key is declared once.
  abbrev pub KeysOnce : Type 0
  KeysOnce =
      Once (map (λ r. r.key) m.resources)
      ⊗ Once (all_scope_keys m.resources)
      ⊗ Once (map (λ p. p.key) m.permissions)
      ⊗ Once (map (λ r. r.key) m.roles)
      ⊗ Once (map (λ g. g.key) m.groups)
      ⊗ Once (map (λ u. u.key) m.users)
      ⊗ Once (map (λ s. s.key) m.service_accounts)

  -- Each reference names something declared, but for a blank parent.
  abbrev pub ReferencesFit : Type 0
  ReferencesFit =
      All (ParentFits (declared_in m).resource_keys) m.resources
      ⊗ All
          (λ r.
            All
              (λ g.
                In (map (λ p. p.key) m.permissions) g.permission
                × All (In (all_scope_keys m.resources)) g.scopes)
              r.grants)
          m.roles
      ⊗ All (λ g. BindingsFit (declared_in m) g.roles) m.groups
      ⊗ All
          (λ u. BindingsFit (declared_in m) u.roles × All (In (map (λ g. g.key) m.groups)) u.groups)
          m.users
      ⊗ All (λ s. BindingsFit (declared_in m) s.roles) m.service_accounts

  -- What validate asks of a manifest. It does not say that a plan can be computed: a blank parent is
  -- let through, for which _compute has no resource.
  pub record Fits : Type 0 where
    pub keys : KeysOnce
    pub references : ReferencesFit
    pub network : NetworkFits m.network
    pub acyclic : (k : String) → ¬ Ancestor (parents_of m.resources) k k
