-- ===== src/Autoscaling.antt =====
-- src/controllers/autoscaling.rs: the configuration and the recommendation that is computed from the
-- metrics. Its child Hpa holds the HorizontalPodAutoscaler; `reconcile_hpa` and `delete_hpa` stand with
-- the calls of the cluster controller.
pub mod Hpa
pub mod Recommend
use streamline_operator.Base.{String, Bool, false, Option, none, List, []}
use streamline_operator.Base.Int.{ℤ, pos}

pub record MetricTargetSpec : Type 0 where
  pub type : String
  pub value : Option String
  pub average_value : Option String
  pub average_utilization : Option ℤ

pub record CustomMetric : Type 0 where
  pub name : String
  pub metric_type : String
  pub target : MetricTargetSpec

pub record ScalingPolicy : Type 0 where
  pub type : String
  pub value : ℤ
  pub period_seconds : ℤ

pub record ScalingRules : Type 0 where
  pub stabilization_window_seconds : Option ℤ
  pub select_policy : Option String
  pub policies : List ScalingPolicy

pub record ScalingBehavior : Type 0 where
  pub scale_up : Option ScalingRules
  pub scale_down : Option ScalingRules

pub record AutoScalingConfig : Type 0 where
  pub enabled : Bool
  pub min_replicas : ℤ
  pub max_replicas : ℤ
  pub target_cpu_utilization : ℤ
  pub target_memory_utilization : ℤ
  pub custom_metrics : List CustomMetric
  pub behavior : Option ScalingBehavior
  pub partition_aware : Bool
  pub target_lag_per_partition : ℤ
  pub target_messages_per_second : ℤ

-- `AutoScalingConfig::default()`: the derived default of each field.
abbrev pub derived_default : AutoScalingConfig
derived_default = record {
  enabled = false;
  min_replicas = pos 0;
  max_replicas = pos 0;
  target_cpu_utilization = pos 0;
  target_memory_utilization = pos 0;
  custom_metrics = [];
  behavior = none;
  partition_aware = false;
  target_lag_per_partition = pos 0;
  target_messages_per_second = pos 0;
}

-- What `{}` parses to: the serde default of each field.
abbrev pub default_min_replicas : ℤ
default_min_replicas = pos 1

abbrev pub default_max_replicas : ℤ
default_max_replicas = pos 10

abbrev pub default_cpu_target : ℤ
default_cpu_target = pos 70

abbrev pub default_memory_target : ℤ
default_memory_target = pos 80

abbrev pub default_lag_threshold : ℤ
default_lag_threshold = pos 10000

abbrev pub default_mps_threshold : ℤ
default_mps_threshold = pos 100000

abbrev pub empty_config : AutoScalingConfig
empty_config = record derived_default {
  min_replicas = default_min_replicas;
  max_replicas = default_max_replicas;
  target_cpu_utilization = default_cpu_target;
  target_memory_utilization = default_memory_target;
  target_lag_per_partition = default_lag_threshold;
  target_messages_per_second = default_mps_threshold;
}
