-- ===== src/Crd/Preview/Branch.antt =====
-- src/crd/branch.rs: time-travel branches.
use streamline_operator.Base.{String, Bool, Option, List}
use streamline_operator.Base.Int.{ℤ}

pub record BranchRetention : Type 0 where
  pub ttl_seconds : ℤ

pub record BranchSpec : Type 0 where
  pub cluster_ref : String
  pub parent : Option String
  pub description : Option String
  pub retention : Option BranchRetention

pub data BranchPhase : Type 0 where
  pending creating ready failed deleting : BranchPhase

pub record BranchCondition : Type 0 where
  pub type : String
  pub status : String
  pub last_transition_time : Option String
  pub reason : Option String
  pub message : Option String

pub record BranchStatus : Type 0 where
  pub phase : BranchPhase
  pub ready : Bool
  pub created_at_ms : Option ℤ
  pub message : Option String
  pub conditions : List BranchCondition
