-- ===== src/Manifest/Models.antt =====
-- What the reads of the management API return, from src/axiam_sdk/management/models.py, and the
-- Snapshot that a plan is computed against, without the reads of a network section. An open enum is
-- its text.
use axiam_python_sdk.Base.{String, Bool, Option, List}
use axiam_python_sdk.Base.Int.{ℤ}
use axiam_python_sdk.Json.{Value}
use axiam_python_sdk.Dict.{Dict}

pub record Resource : Type 0 where
  pub created_at : String
  pub id : String
  pub metadata : Value
  pub name : String
  pub parent_id : Option String
  pub resource_type : String
  pub tenant_id : String
  pub uma_registered_by : Option String
  pub updated_at : String

pub record Scope : Type 0 where
  pub created_at : String
  pub description : String
  pub id : String
  pub name : String
  pub resource_id : String
  pub tenant_id : String
  pub updated_at : String

pub record Permission : Type 0 where
  pub action : String
  pub created_at : String
  pub description : String
  pub id : String
  pub tenant_id : String
  pub updated_at : String

pub record Role : Type 0 where
  pub created_at : String
  pub description : String
  pub id : String
  pub is_global : Bool
  pub name : String
  pub tenant_id : String
  pub updated_at : String

pub record Group : Type 0 where
  pub created_at : String
  pub description : String
  pub id : String
  pub metadata : Value
  pub name : String
  pub tenant_id : String
  pub updated_at : String

pub record UserResponse : Type 0 where
  pub created_at : String
  pub email : String
  pub email_verified : Bool
  pub failed_login_attempts : ℤ
  pub id : String
  pub is_locked : Bool
  pub locked_until : Option String
  pub metadata : Value
  pub mfa_enabled : Bool
  pub status : String
  pub tenant_id : String
  pub updated_at : String
  pub username : String

pub record ServiceAccountResponse : Type 0 where
  pub client_id : String
  pub created_at : String
  pub description : Option String
  pub id : String
  pub name : String
  pub status : String
  pub tenant_id : String
  pub updated_at : String

-- RoleGroupAssignment, RoleUserAssignment and RoleServiceAccountAssignment, each with its subject.
pub record RoleAssignment (A : Type 0) : Type 0 where
  pub subject : A
  pub inherit : Bool
  pub resource_id : Option String
  pub tenant_scope : Option (List String)

pub record Snapshot : Type 0 where
  pub resources : List Resource
  pub scopes : Dict (List Scope)
  pub permissions : List Permission
  pub roles : List Role
  pub groups : List Group
  pub users : List UserResponse
  pub service_accounts : List ServiceAccountResponse
  pub role_grants : Dict (List String)
  pub role_user_bindings : Dict (List (RoleAssignment UserResponse))
  pub role_group_bindings : Dict (List (RoleAssignment Group))
  pub role_service_account_bindings : Dict (List (RoleAssignment ServiceAccountResponse))
  pub group_members : Dict (List String)
