-- ===== src/Crd/Topic.antt =====
-- src/crd/topic.rs: the StreamlineTopic resource, its defaults and its status.
use streamline_operator.Base.{String, Bool, Option, none, List, []}
use streamline_operator.Base.Int.{ℤ, pos, negsuc, ℤ-discrete}
use streamline_operator.Base.Text.{String-discrete}
use streamline_operator.Crd.Meta.{ObjectMeta}

pub record TopicConfig : Type 0 where
  pub min_insync_replicas : Option ℤ
  pub max_message_bytes : Option ℤ
  pub segment_bytes : Option ℤ
  pub index_interval_bytes : Option ℤ
  pub flush_interval_ms : Option ℤ
  pub flush_messages : Option ℤ
  pub custom : List (String × String)

pub record RetentionConfig : Type 0 where
  pub retention_ms : ℤ
  pub retention_bytes : ℤ
  pub cleanup_policy : String

pub record CompressionConfig : Type 0 where
  pub type : String

pub record TopicSpec : Type 0 where
  pub cluster_ref : String
  pub partitions : ℤ
  pub replication_factor : ℤ
  pub config : TopicConfig
  pub retention : RetentionConfig
  pub compression : CompressionConfig

-- `impl Default for RetentionConfig`; -1 is unlimited.
abbrev pub default_retention : RetentionConfig
default_retention = record {
  retention_ms = negsuc 0;
  retention_bytes = negsuc 0;
  cleanup_policy = "delete";
}

abbrev pub default_compression : CompressionConfig
default_compression = record { type = "producer" }

abbrev pub default_config : TopicConfig
default_config = record {
  min_insync_replicas = none;
  max_message_bytes = none;
  segment_bytes = none;
  index_interval_bytes = none;
  flush_interval_ms = none;
  flush_messages = none;
  custom = [];
}

pub record TopicConfigDefaults : Type 0 where
  pub retention_ms : ℤ
  pub retention_bytes : ℤ
  pub cleanup_policy : String
  pub compression_type : String

-- `TopicSpec::config_defaults`
abbrev pub config_defaults : TopicConfigDefaults
config_defaults = record {
  retention_ms = default_retention.retention_ms;
  retention_bytes = default_retention.retention_bytes;
  cleanup_policy = default_retention.cleanup_policy;
  compression_type = default_compression.type;
}

-- What the schema's defaults make of a `spec` with a `clusterRef` alone.
abbrev pub default_topic_spec : String → TopicSpec
default_topic_spec cluster_ref = record {
  cluster_ref = cluster_ref;
  partitions = pos 3;
  replication_factor = pos 1;
  config = default_config;
  retention = default_retention;
  compression = default_compression;
}

pub data TopicPhase : Type 0 where
  pending ready updating failed terminating : TopicPhase

pub record PartitionAssignment : Type 0 where
  pub partition : ℤ
  pub leader : ℤ
  pub replicas : List ℤ
  pub isr : List ℤ

pub record TopicCondition : Type 0 where
  pub type : String
  pub status : String
  pub last_transition_time : Option String
  pub reason : Option String
  pub message : Option String

pub record TopicStatus : Type 0 where
  pub ready : Bool
  pub phase : TopicPhase
  pub partitions : ℤ
  pub replication_factor : ℤ
  pub partition_assignments : List PartitionAssignment
  pub conditions : List TopicCondition
  pub observed_generation : Option ℤ
  pub last_updated : Option String
  pub error_message : Option String

pub record StreamlineTopic : Type 0 where
  pub metadata : ObjectMeta
  pub spec : TopicSpec
  pub status : Option TopicStatus

-- The derived `PartialEq` of the status.
pub TopicStatus-discrete : Discrete TopicStatus
TopicStatus-discrete = hlevel (ℤ-discrete, String-discrete)
