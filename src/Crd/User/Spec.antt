-- ===== src/Crd/User/Spec.antt =====
-- src/crd/user.rs: the spec of a StreamlineUser, which no controller reads.
use streamline_operator.Base.{String, Option, List}
use streamline_operator.Base.Int.{ℤ}

pub data AuthenticationType : Type 0 where
  scram_sha256 scram_sha512 plain tls_client_auth : AuthenticationType

pub record SecretReference : Type 0 where
  pub name : String
  pub key : String

pub record UserCredentials : Type 0 where
  pub secret_ref : Option SecretReference
  pub value : Option String

pub record UserAuthentication : Type 0 where
  pub type : AuthenticationType
  pub credentials : Option UserCredentials

pub data AuthorizationType : Type 0 where
  simple rbac : AuthorizationType

pub data ResourceType : Type 0 where
  topic group cluster transactional_id : ResourceType

pub data PatternType : Type 0 where
  literal prefixed : PatternType

pub data UserPermission : Type 0 where
  read write create delete alter describe describe_configs alter_configs idempotent_write all :
      UserPermission

pub data PermissionType : Type 0 where
  allow deny : PermissionType

pub record UserAcl : Type 0 where
  pub resource_type : ResourceType
  pub resource_name : String
  pub pattern_type : PatternType
  pub operations : List UserPermission
  pub permission : PermissionType

pub record UserAuthorization : Type 0 where
  pub type : AuthorizationType
  pub acls : List UserAcl
  pub roles : List String

pub record UserQuotas : Type 0 where
  pub producer_byte_rate : Option ℤ
  pub consumer_byte_rate : Option ℤ
  pub request_rate : Option ℤ
  pub connection_rate : Option ℤ

pub record UserSpec : Type 0 where
  pub cluster_ref : String
  pub authentication : UserAuthentication
  pub authorization : UserAuthorization
  pub quotas : Option UserQuotas

abbrev pub default_password_key : String
default_password_key = "password"
