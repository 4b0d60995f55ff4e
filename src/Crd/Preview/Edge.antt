-- ===== src/Crd/Preview/Edge.antt =====
-- src/crd/edge.rs: fleets of edge nodes.
use streamline_operator.Base.{ℕ, String, Bool, Option, List}

pub record BootstrapConfig : Type 0 where
  pub token_secret_ref : String
  pub ttl_seconds : ℕ
  pub single_use : Bool

pub record SyncConfig : Type 0 where
  pub batch_interval_ms : ℕ
  pub max_batch_bytes : ℕ
  pub adaptive_sync : Bool

pub record EdgeSpec : Type 0 where
  pub cluster_ref : String
  pub sync_topics : List String
  pub default_crdt_type : Option String
  pub max_nodes : ℕ
  pub bootstrap : Option BootstrapConfig
  pub sync : Option SyncConfig

pub record EdgeCondition : Type 0 where
  pub type : String
  pub status : String
  pub reason : Option String
  pub message : Option String
  pub last_transition_time : Option String

pub record EdgeStatus : Type 0 where
  pub phase : String
  pub connected_nodes : ℕ
  pub registered_nodes : ℕ
  pub last_sync_at : Option String
  pub conditions : List EdgeCondition

abbrev pub default_max_nodes : ℕ
default_max_nodes = 100

abbrev pub default_batch_interval : ℕ
default_batch_interval = 1000

abbrev pub default_max_batch_bytes : ℕ
default_max_batch_bytes = 1048576
