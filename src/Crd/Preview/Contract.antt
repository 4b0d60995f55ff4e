-- ===== src/Crd/Preview/Contract.antt =====
-- src/crd/contract.rs: data contracts.
use streamline_operator.Base.{String, Bool, Option, List}

pub data ContractCompatibility : Type 0 where
  backward forward full none : ContractCompatibility

pub record ContractSpec : Type 0 where
  pub cluster_ref : String
  pub schema_json : String
  pub compatibility : ContractCompatibility
  pub bind_topics : List String

pub data ContractPhase : Type 0 where
  pending registering active failed deleting : ContractPhase

pub record ContractCondition : Type 0 where
  pub type : String
  pub status : String
  pub last_transition_time : Option String
  pub reason : Option String
  pub message : Option String

pub record ContractStatus : Type 0 where
  pub phase : ContractPhase
  pub registered : Bool
  pub bound_topics : List String
  pub message : Option String
  pub conditions : List ContractCondition

abbrev pub default_compatibility : ContractCompatibility
default_compatibility = backward
