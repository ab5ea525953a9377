-- ===== src/Manifest/Validate.antt =====
-- validate of src/axiam_sdk/management/manifest/_plan.py: the problems of a manifest that are
-- found before any request. A problem stands for its message, with the values that the message
-- shows.
pub mod Fitting
pub mod Checks
pub mod Sound
use axiam_python_sdk.Base.{
  String, ◌≡◌, Bool, true, false, ◌&&◌, not, Option, none, some, List, [], ◌∷◌, ◌++◌, map, ◌==◌,
  if◌then◌else◌,
}
use axiam_python_sdk.Dict.{Dict, lookup, put}
use axiam_python_sdk.Text.{is_blank}
use axiam_python_sdk.Manifest.{
  ScopeSpec, ResourceSpec, PermissionSpec, GrantSpec, ScopedRoleBinding, RoleBinding, plain, scoped,
  RoleSpec, GroupSpec, UserSpec, ServiceAccountSpec, Stated, unset, stated, NetworkSegmentSpec,
  NetworkProfileSpec, NetworkSpec, ManagementManifest,
}
use axiam_python_sdk.Manifest.Order.{member, Order, ordered, cycle, stuck, topological_order}

pub data Problem : Type 0 where
  -- kind, key
  duplicate : String → String → Problem
  -- resource, parent
  undeclared_parent : String → String → Problem
  -- role, permission
  undeclared_permission : String → String → Problem
  -- role, scope
  undeclared_scope : String → String → Problem
  -- user, group
  undeclared_group : String → String → Problem
  -- kind, subject, role
  undeclared_role repeated_role uninherited_global : String → String → String → Problem
  -- kind, subject, role, resource
  undeclared_resource : String → String → String → String → Problem
  -- segment
  repeated_natural_key : NetworkSegmentSpec → Problem
  -- segment, name
  repeated_filter_id : String → String → Problem
  -- segment
  undeclared_segment repeated_profile no_termination_action : String → Problem
  -- a key of the cycle
  cyclic : String → Problem
  -- never reported: see topological_order_finishes
  endless : Problem

-- The problems of one check, then those of the next.
infixr 50 ◌⨾◌
abbrev pub ◌⨾◌ : List Problem → List Problem → List Problem
ps ⨾ qs = ps ++ qs

-- for x in xs: ... problems.append(...)
unfoldable pub each {ℓ} : {A : Type ℓ} → (A → List Problem) → List A → List Problem
each problems [] = []
each problems (x ∷ xs) = problems x ⨾ each problems xs

-- if test: problems.append(problem)
abbrev pub report : Bool → Problem → List Problem
report test problem = if test then problem ∷ [] else []

-- A loop that reports what it has met before, `seen`.
unfoldable pub repeats :
    {A : Type 0} → (A → List A → Bool) → (A → Problem) → List A → List A → List Problem
repeats is_in problem seen [] = []
repeats is_in problem seen (x ∷ xs) =
    report (is_in x seen) (problem x) ⨾ repeats is_in problem (x ∷ seen) xs

-- _duplicates
unfoldable pub duplicates : String → List String → List Problem
unfolding repeats
duplicates kind keys = repeats member (duplicate kind) [] keys

abbrev pub scope_keys : List ScopeSpec → List String
scope_keys scopes = map (λ s. s.key) scopes

-- [s.key for r in resources for s in r.scopes]
unfoldable pub all_scope_keys : List ResourceSpec → List String
all_scope_keys [] = []
all_scope_keys (r ∷ rs) = scope_keys r.scopes ++ all_scope_keys rs

-- {r.key: r for r in manifest.roles}, on top of the pairs so far
unfoldable pub add_roles : List RoleSpec → Dict RoleSpec → Dict RoleSpec
add_roles [] roles = roles
add_roles (r ∷ rs) roles = add_roles rs (put r.key r roles)

-- role_key
abbrev pub role_key : RoleBinding → String
role_key (plain role) = role
role_key (scoped b) = b.role

-- resource_key
abbrev pub resource_key : RoleBinding → Option String
resource_key (plain role) = none
resource_key (scoped b) = some b.resource

-- role is not None and role.is_global
abbrev pub is_global_role : Option RoleSpec → Bool
is_global_role none = false
is_global_role (some role) = role.is_global

-- What the manifest declares, as the checks look it up.
pub record Declared : Type 0 where
  pub role_keys : List String
  pub resource_keys : List String
  pub role_by_key : Dict RoleSpec

module _ (d : Declared) (kind subject : String) where
  abbrev pub binding_resource_problems : RoleBinding → List Problem
  binding_resource_problems (plain role) = []
  binding_resource_problems (scoped b) =
      report (not (member b.resource d.resource_keys))
        (undeclared_resource kind subject b.role b.resource)
      ⨾ report (not b.inherit && is_global_role (lookup b.role d.role_by_key))
          (uninherited_global kind subject b.role)

  -- _validate_role_bindings
  unfoldable pub validate_role_bindings : List String → List RoleBinding → List Problem
  validate_role_bindings seen_roles [] = []
  validate_role_bindings seen_roles (b ∷ bs) =
      report (not (member (role_key b) d.role_keys)) (undeclared_role kind subject (role_key b))
      ⨾ report (member (role_key b) seen_roles) (repeated_role kind subject (role_key b))
      ⨾ binding_resource_problems b
      ⨾ validate_role_bindings (role_key b ∷ seen_roles) bs

-- if resource.parent and resource.parent not in resource_keys
abbrev pub optional_parent_problems : List String → String → Option String → List Problem
optional_parent_problems keys key none = []
optional_parent_problems keys key (some parent) =
    report (not (is_blank parent) && not (member parent keys)) (undeclared_parent key parent)

abbrev pub parent_problems : List String → ResourceSpec → List Problem
parent_problems keys r = optional_parent_problems keys r.key r.parent

abbrev pub grant_problems : List String → List String → String → GrantSpec → List Problem
grant_problems permissions scopes role grant =
    report (not (member grant.permission permissions)) (undeclared_permission role grant.permission)
    ⨾ each (λ s. report (not (member s scopes)) (undeclared_scope role s)) grant.scopes

-- (segment.site, segment.kind, segment.name) in natural
unfoldable pub same_place : NetworkSegmentSpec → List NetworkSegmentSpec → Bool
same_place s [] = false
same_place s (t ∷ ts) =
    let rest = same_place s ts in
    if t.site == s.site && t.kind == s.kind && t.name == s.name then true else rest

abbrev pub repeated_filter_ids : String → Stated (List String) → List Problem
repeated_filter_ids key unset = []
repeated_filter_ids key (stated names) = repeats member (repeated_filter_id key) [] names

abbrev pub filter_problems : NetworkSegmentSpec → List Problem
filter_problems s = repeated_filter_ids s.key s.filter_ids

-- the loop over the segments
unfoldable pub segment_problems : List NetworkSegmentSpec → List NetworkSegmentSpec → List Problem
segment_problems natural [] = []
segment_problems natural (s ∷ ss) =
    report (same_place s natural) (repeated_natural_key s)
    ⨾ filter_problems s
    ⨾ segment_problems (s ∷ natural) ss

-- profile.termination_action is None
abbrev pub states_none : {A : Type 0} → Stated (Option A) → Bool
states_none (stated none) = true
states_none _ = false

-- the loop over the profiles
unfoldable pub profile_problems : List String → List String → List NetworkProfileSpec → List Problem
profile_problems segments profiled [] = []
profile_problems segments profiled (p ∷ ps) =
    report (not (member p.segment segments)) (undeclared_segment p.segment)
    ⨾ report (member p.segment profiled) (repeated_profile p.segment)
    ⨾ report (states_none p.termination_action) (no_termination_action p.segment)
    ⨾ profile_problems segments (p.segment ∷ profiled) ps

-- _validate_network
unfoldable pub validate_network : Option NetworkSpec → List Problem
unfolding duplicates segment_problems profile_problems
validate_network none = []
validate_network (some network) =
    let keys = map (λ s. s.key) network.segments in
    duplicates "network segment" keys
    ⨾ segment_problems [] network.segments
    ⨾ profile_problems keys [] network.profiles

-- what the NetworkError of topological_order adds
abbrev pub order_problems : Order → List Problem
order_problems (ordered order) = []
order_problems (cycle key) = cyclic key ∷ []
order_problems stuck = endless ∷ []

abbrev pub declared_in : ManagementManifest → Declared
declared_in m = record {
  role_keys = map (λ r. r.key) m.roles;
  resource_keys = map (λ r. r.key) m.resources;
  role_by_key = add_roles m.roles [];
}

-- the seven calls of _duplicates
unfoldable pub duplicate_problems : ManagementManifest → List Problem
unfolding duplicates
duplicate_problems m =
    duplicates "resource" (map (λ r. r.key) m.resources)
    ⨾ duplicates "scope" (all_scope_keys m.resources)
    ⨾ duplicates "permission" (map (λ p. p.key) m.permissions)
    ⨾ duplicates "role" (map (λ r. r.key) m.roles)
    ⨾ duplicates "group" (map (λ g. g.key) m.groups)
    ⨾ duplicates "user" (map (λ u. u.key) m.users)
    ⨾ duplicates "service_account" (map (λ s. s.key) m.service_accounts)

-- the loops over resources, roles, groups, users and service accounts
unfoldable pub reference_problems : ManagementManifest → List Problem
unfolding each all_scope_keys validate_role_bindings
reference_problems m =
    let d = declared_in m in
    each (parent_problems d.resource_keys) m.resources
    ⨾ each
        (λ r.
          each (grant_problems (map (λ p. p.key) m.permissions) (all_scope_keys m.resources) r.key)
            r.grants)
        m.roles
    ⨾ each (λ g. validate_role_bindings d "group" g.key [] g.roles) m.groups
    ⨾ each
        (λ u.
          validate_role_bindings d "user" u.key [] u.roles
          ⨾ each
              (λ g. report (not (member g (map (λ g. g.key) m.groups))) (undeclared_group u.key g))
              u.groups)
        m.users
    ⨾ each (λ s. validate_role_bindings d "service_account" s.key [] s.roles) m.service_accounts

-- if problems: raise NetworkError(...)
abbrev pub raised : List Problem → Option (List Problem)
raised [] = none
raised (problem ∷ problems) = some (problem ∷ problems)

-- validate: the problems of the NetworkError, or none where it passes
unfoldable pub validate : ManagementManifest → Option (List Problem)
unfolding duplicate_problems reference_problems validate_network topological_order
validate m = raised (
    duplicate_problems m
    ⨾ reference_problems m
    ⨾ validate_network m.network
    ⨾ order_problems (topological_order m.resources))
