-- ===== src/TopicController/Gate.antt =====
-- `unsupported_fields`: the settings that the topic API cannot apply. Each group returns what it
-- pushes, in the order of the source.
pub mod Exact
use streamline_operator.Base.{
  String, Bool, true, false, not, Option, none, some, List, [], ◌∷◌, ◌++◌, str_eq, if◌then◌else◌,
}
use streamline_operator.Base.Int.{ℤ, pos, ltb_ℤ, eqb_ℤ}
use streamline_operator.Base.Text.{format, show_ℤ}
use streamline_operator.Crd.Topic.{TopicSpec, TopicConfig, config_defaults}
use streamline_operator.Upgrade.{
  remediation_for, remediation_for_value, legacy_topic_replication_factor,
}

-- The closure `reject`.
unfoldable pub reject : String → String → String → String
unfolding format
reject field requested default = format (
    field
    ∷ "="
    ∷ requested
    ∷ " is not supported: the Streamline topic API applies no topic configuration (it accepts only name and partitions), so this setting would be silently discarded (leave it at the default "
    ∷ default
    ∷ ")."
    ∷ remediation_for_value (format ("spec." ∷ field ∷ [])) requested
    ∷ [])

abbrev pub push_unless : Bool → String → List String
push_unless test message = if test then [] else message ∷ []

unfoldable pub replication_errors : TopicSpec → List String
unfolding format
replication_errors s = push_unless (eqb_ℤ s.replication_factor (pos 1)) (
    format (
      "replicationFactor="
      ∷ show_ℤ s.replication_factor
      ∷ " is not supported: the Streamline topic API creates single-replica topics (set replicationFactor: 1), so this topic would claim durability the cluster does not provide."
      ∷ remediation_for "spec.replicationFactor"
          (eqb_ℤ s.replication_factor legacy_topic_replication_factor)
      ∷ []))

unfoldable pub partition_errors : TopicSpec → List String
unfolding format
partition_errors s =
    push_unless (not (ltb_ℤ s.partitions (pos 1)))
      (format ("partitions must be >= 1, got " ∷ show_ℤ s.partitions ∷ []))

unfoldable pub default_errors : TopicSpec → List String
default_errors s =
    push_unless (eqb_ℤ s.retention.retention_ms config_defaults.retention_ms) (
      reject "retention.retentionMs" (show_ℤ s.retention.retention_ms)
        (show_ℤ config_defaults.retention_ms))
    ++ (push_unless (eqb_ℤ s.retention.retention_bytes config_defaults.retention_bytes) (
          reject "retention.retentionBytes" (show_ℤ s.retention.retention_bytes)
            (show_ℤ config_defaults.retention_bytes))
        ++ (push_unless (str_eq s.retention.cleanup_policy config_defaults.cleanup_policy) (
              reject "retention.cleanupPolicy" s.retention.cleanup_policy
                config_defaults.cleanup_policy)
            ++ push_unless (str_eq s.compression.type config_defaults.compression_type)
                (reject "compression.type" s.compression.type config_defaults.compression_type)))

-- One round of the loop over the overrides: any value is a request.
unfoldable pub override_error : String → Option ℤ → List String
override_error field none = []
override_error field (some value) = reject field (show_ℤ value) "unset" ∷ []

unfoldable pub override_errors : TopicConfig → List String
unfolding override_error
override_errors c =
    override_error "config.minInsyncReplicas" c.min_insync_replicas
    ++ (override_error "config.maxMessageBytes" c.max_message_bytes
        ++ (override_error "config.segmentBytes" c.segment_bytes
            ++ (override_error "config.indexIntervalBytes" c.index_interval_bytes
                ++ (override_error "config.flushIntervalMs" c.flush_interval_ms
                    ++ override_error "config.flushMessages" c.flush_messages))))

-- The loop over `spec.config.custom.keys()`.
unfoldable pub custom_errors : List (String × String) → List String
unfolding format
custom_errors [] = []
custom_errors ((key, value) ∷ rest) =
    reject (format ("config.custom[" ∷ key ∷ "]" ∷ [])) "set" "unset" ∷ custom_errors rest

unfoldable pub unsupported_fields : TopicSpec → List String
unfolding replication_errors partition_errors default_errors override_errors custom_errors
unsupported_fields s =
    replication_errors s
    ++ (partition_errors s
        ++ (default_errors s ++ (override_errors s.config ++ custom_errors s.config.custom)))
