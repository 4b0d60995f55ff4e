-- ===== src/TopicController/Gate/Exact.antt =====
-- Which specs pass the gate.
use streamline_operator.Base.{append-nil_iff, ◌≡◌, ◌↔◌, refl, [], arith, eq_iff}
use streamline_operator.Base.Int.{pos, ◌≤ℤ◌}
use streamline_operator.Crd.Topic.{
  TopicSpec, TopicConfig, default_config, default_retention, default_compression,
}
use streamline_operator.TopicController.Gate.{
  unsupported_fields, replication_errors, partition_errors, default_errors, override_errors,
  custom_errors,
}

-- The spec asks for nothing but a name and a number of partitions.
pub record AsksForNothingElse (s : TopicSpec) : Type 0 where
  pub one_replica : s.replication_factor ≡ pos 1
  pub partitions : pos 1 ≤ℤ s.partitions
  pub retention : s.retention ≡ default_retention
  pub compression : s.compression ≡ default_compression
  pub config : s.config ≡ default_config

replication_iff : (s : TopicSpec) → (replication_errors s ≡ []) ↔ (s.replication_factor ≡ pos 1)
unfolding replication_errors
replication_iff s = (λ h. ground arith, λ h. rw h)

partition_iff : (s : TopicSpec) → (partition_errors s ≡ []) ↔ (pos 1 ≤ℤ s.partitions)
unfolding partition_errors
partition_iff s = (λ h. ground arith, λ h. ground arith)

default_iff :
    (s : TopicSpec)
    → (default_errors s ≡ [])
      ↔ ((s.retention ≡ default_retention) × (s.compression ≡ default_compression))
unfolding default_errors
default_iff s = (
  λ h. (
    ground
        (arith, eq_iff s.retention.cleanup_policy "delete", eq_iff s.compression.type "producer"),
    ground
        (arith, eq_iff s.retention.cleanup_policy "delete", eq_iff s.compression.type "producer"),
  ),
  λ h. rw (h.0, h.1),
)

config_iff :
    (c : TopicConfig)
    → ((override_errors c ≡ []) × (custom_errors c.custom ≡ [])) ↔ (c ≡ default_config)
unfolding override_errors custom_errors
config_iff c = (λ h. ground arith, λ h. rw h (refl, refl))

-- The gate lets a spec pass exactly if it asks for one replica, at least one partition, and leaves
-- the retention, the compression and every override at the schema's defaults.
pub unsupported_fields_iff : (s : TopicSpec) → (unsupported_fields s ≡ []) ↔ AsksForNothingElse s
unfolding unsupported_fields
unsupported_fields_iff s = (forward, backward)
  where
    forward : unsupported_fields s ≡ [] → AsksForNothingElse s
    forward h =
        let (r, h1) = (append-nil_iff (replication_errors s) _).0 h in
        let (p, h2) = (append-nil_iff (partition_errors s) _).0 h1 in
        let (d, h3) = (append-nil_iff (default_errors s) _).0 h2 in
        let c = (append-nil_iff (override_errors s.config) _).0 h3 in
        record {
          one_replica = (replication_iff s).0 r;
          partitions = (partition_iff s).0 p;
          retention = ((default_iff s).0 d).0;
          compression = ((default_iff s).0 d).1;
          config = (config_iff s.config).0 c;
        }

    backward : AsksForNothingElse s → unsupported_fields s ≡ []
    backward h = (append-nil_iff (replication_errors s) _).1 (
      (replication_iff s).1 h.one_replica,
      (append-nil_iff (partition_errors s) _).1 (
        (partition_iff s).1 h.partitions,
        (append-nil_iff (default_errors s) _).1 (
          (default_iff s).1 (h.retention, h.compression),
          (append-nil_iff (override_errors s.config) _).1 ((config_iff s.config).1 h.config),
        ),
      ),
    )
