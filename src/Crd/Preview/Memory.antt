-- ===== src/Crd/Preview/Memory.antt =====
-- src/crd/memory.rs: the memory of agents.
use streamline_operator.Base.{String, Bool, Option, List}
use streamline_operator.Base.Int.{ℤ, pos, negsuc}
use streamline_operator.Base.Float.{Floats}

pub record MemoryTiers : Type 0 where
  pub episodic_retention_days : ℤ
  pub semantic_retention_days : ℤ
  pub procedural_retention_days : ℤ

abbrev pub default_episodic_retention : ℤ
default_episodic_retention = pos 30

abbrev pub default_semantic_retention : ℤ
default_semantic_retention = pos 365

-- -1: for ever.
abbrev pub default_procedural_retention : ℤ
default_procedural_retention = negsuc 0

-- `MemoryTiers::default()`
abbrev pub default_tiers : MemoryTiers
default_tiers = record {
  episodic_retention_days = default_episodic_retention;
  semantic_retention_days = default_semantic_retention;
  procedural_retention_days = default_procedural_retention;
}

pub data MemoryPhase : Type 0 where
  pending provisioning ready decaying failed deleting : MemoryPhase

pub record MemoryCondition : Type 0 where
  pub type : String
  pub status : String
  pub last_transition_time : Option String
  pub reason : Option String
  pub message : Option String

pub record MemoryStatus : Type 0 where
  pub phase : MemoryPhase
  pub ready : Bool
  pub episodic_event_count : ℤ
  pub semantic_event_count : ℤ
  pub procedural_event_count : ℤ
  pub message : Option String
  pub conditions : List MemoryCondition

module _ (floats : Floats) where
  pub record MemoryDecay : Type 0 where
    pub half_life_days : floats.F64
    pub threshold : floats.F64

  pub record MemorySpec : Type 0 where
    pub agent_id : String
    pub tenant : String
    pub cluster_ref : String
    pub tiers : MemoryTiers
    pub decay : Option MemoryDecay
    pub encryption_enabled : Bool

  abbrev pub default_half_life : floats.F64
  default_half_life = floats.literal 7 1

  abbrev pub default_threshold : floats.F64
  default_threshold = floats.literal 1 10

  -- `MemoryDecay::default()`
  abbrev pub default_decay : MemoryDecay
  default_decay = record { half_life_days = default_half_life; threshold = default_threshold }
