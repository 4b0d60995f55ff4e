-- ===== src/Crd/User.antt =====
-- src/crd/user.rs: the StreamlineUser resource. Its child Spec holds the spec.
pub mod Spec
use streamline_operator.Base.{String, Bool, Option, List}
use streamline_operator.Base.Int.{ℤ, ℤ-discrete}
use streamline_operator.Base.Text.{String-discrete}
use streamline_operator.Crd.User.Spec.{UserSpec}
use streamline_operator.Crd.Meta.{ObjectMeta}

pub data UserPhase : Type 0 where
  pending unsupported ready updating failed terminating : UserPhase

pub record UserCondition : Type 0 where
  pub type : String
  pub status : String
  pub last_transition_time : Option String
  pub reason : Option String
  pub message : Option String

pub record UserStatus : Type 0 where
  pub ready : Bool
  pub phase : UserPhase
  pub username : Option String
  pub credentials_secret : Option String
  pub conditions : List UserCondition
  pub observed_generation : Option ℤ
  pub last_updated : Option String
  pub error_message : Option String

pub record StreamlineUser : Type 0 where
  pub metadata : ObjectMeta
  pub spec : UserSpec
  pub status : Option UserStatus

-- The derived `PartialEq` of the status.
pub UserStatus-discrete : Discrete UserStatus
UserStatus-discrete = hlevel (ℤ-discrete, String-discrete)
