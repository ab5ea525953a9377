-- ===== src/Manifest.antt =====
-- The desired shape of a tenant: the specs of src/axiam_sdk/management/manifest/_spec.py.
pub mod Order
pub mod Validate
pub mod Plan
pub mod Models
pub mod Engine
pub mod Compute
pub mod Api
use axiam_python_sdk.Base.{String, Bool, Option, List}
use axiam_python_sdk.Base.Int.{ℤ}
use axiam_python_sdk.Json.{Fields}

pub record ScopeSpec : Type 0 where
  pub key : String
  pub name : String
  pub description : String

pub record ResourceSpec : Type 0 where
  pub key : String
  pub name : String
  pub resource_type : String
  pub parent : Option String
  pub scopes : List ScopeSpec
  pub metadata : Option Fields

pub record PermissionSpec : Type 0 where
  pub key : String
  pub action : String
  pub description : String

pub record GrantSpec : Type 0 where
  pub permission : String
  pub effect : Option String
  pub scopes : List String

pub record ScopedRoleBinding : Type 0 where
  pub role : String
  pub resource : String
  pub inherit : Bool

-- a bare role key, or a binding at a resource
pub data RoleBinding : Type 0 where
  plain : String → RoleBinding
  scoped : ScopedRoleBinding → RoleBinding

pub record RoleSpec : Type 0 where
  pub key : String
  pub name : String
  pub description : String
  pub is_global : Bool
  pub grants : List GrantSpec

pub record GroupSpec : Type 0 where
  pub key : String
  pub name : String
  pub description : String
  pub roles : List RoleBinding

pub record UserSpec : Type 0 where
  pub key : String
  pub username : String
  pub email : String
  pub initial_password : Option String
  pub roles : List RoleBinding
  pub groups : List String

pub record ServiceAccountSpec : Type 0 where
  pub key : String
  pub name : String
  pub description : Option String
  pub roles : List RoleBinding

-- A member that the author stated, None included where it may be, or UNSET.
pub data Stated (A : Type 0) : Type 0 where
  unset : Stated A
  stated : A → Stated A

pub record NetworkSegmentSpec : Type 0 where
  pub key : String
  pub site : String
  pub kind : String
  pub name : String
  pub vlan_id : ℤ
  pub rank : Stated (Option ℤ)
  pub filter_ids : Stated (List String)
  pub enabled : Stated Bool

pub record NetworkProfileSpec : Type 0 where
  pub segment : String
  pub session_timeout_secs : ℤ
  pub termination_action : Stated (Option String)
  pub idle_timeout_secs : Stated (Option ℤ)
  pub filter_id : Stated (Option String)
  pub service_type : Stated (Option String)

pub record NetworkPolicySpec : Type 0 where
  pub session_timeout_max_secs : ℤ

pub record NetworkSpec : Type 0 where
  pub policy : Option NetworkPolicySpec
  pub segments : List NetworkSegmentSpec
  pub profiles : List NetworkProfileSpec

pub record ManagementManifest : Type 0 where
  pub resources : List ResourceSpec
  pub permissions : List PermissionSpec
  pub roles : List RoleSpec
  pub groups : List GroupSpec
  pub users : List UserSpec
  pub service_accounts : List ServiceAccountSpec
  pub network : Option NetworkSpec
