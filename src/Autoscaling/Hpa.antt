-- ===== src/Autoscaling/Hpa.antt =====
-- The HorizontalPodAutoscaler that src/controllers/autoscaling.rs renders (`build_hpa` and what it
-- calls), with the fields that it sets.
use streamline_operator.Base.{
  String, Option, none, some, List, [], ◌∷◌, ◌++◌, map, str_eq, if◌then◌else◌,
}
use streamline_operator.Base.Int.{ℤ}
use streamline_operator.Base.Text.{format, show_ℤ}
use streamline_operator.Crd.Cluster.{StreamlineCluster}
use streamline_operator.ClusterController.Workloads.{Entries, OwnedMeta, owner_reference}
use streamline_operator.Autoscaling.{
  AutoScalingConfig, CustomMetric, MetricTargetSpec, ScalingPolicy, ScalingRules, ScalingBehavior,
}

pub record MetricTarget : Type 0 where
  pub type : String
  pub value : Option String
  pub average_value : Option String
  pub average_utilization : Option ℤ

-- A resource, or a metric, by name, with its target.
pub record MetricSource : Type 0 where
  pub name : String
  pub target : MetricTarget

pub record MetricSpec : Type 0 where
  pub type : String
  pub resource : Option MetricSource
  pub pods : Option MetricSource
  pub external : Option MetricSource

pub record HpaScalingRules : Type 0 where
  pub stabilization_window_seconds : Option ℤ
  pub select_policy : Option String
  pub policies : Option (List ScalingPolicy)

pub record HpaBehavior : Type 0 where
  pub scale_up : Option HpaScalingRules
  pub scale_down : Option HpaScalingRules

pub record CrossVersionObjectReference : Type 0 where
  pub api_version : Option String
  pub kind : String
  pub name : String

pub record HorizontalPodAutoscaler : Type 0 where
  pub metadata : OwnedMeta
  pub scale_target_ref : CrossVersionObjectReference
  pub min_replicas : Option ℤ
  pub max_replicas : ℤ
  pub metrics : Option (List MetricSpec)
  pub behavior : Option HpaBehavior

abbrev pub common_labels : StreamlineCluster → Entries
common_labels cluster =
    ("app.kubernetes.io/component", "autoscaling")
    ∷ ("app.kubernetes.io/instance", cluster.metadata.name_any)
    ∷ ("app.kubernetes.io/managed-by", "streamline-operator")
    ∷ ("app.kubernetes.io/name", "streamline")
    ∷ []

abbrev pub resource_metric : String → ℤ → MetricSpec
resource_metric name utilization = record {
  type = "Resource";
  resource = some (record {
    name = name;
    target = record {
      type = "Utilization";
      value = none;
      average_value = none;
      average_utilization = some utilization;
    };
  });
  pods = none;
  external = none;
}

abbrev pub pods_metric : String → MetricTarget → MetricSpec
pods_metric name target = record {
  type = "Pods";
  resource = none;
  pods = some (record { name = name; target = target });
  external = none;
}

abbrev pub external_metric : String → MetricTarget → MetricSpec
external_metric name target = record {
  type = "External";
  resource = none;
  pods = none;
  external = some (record { name = name; target = target });
}

abbrev pub average_of : ℤ → MetricTarget
average_of n = record {
  type = "AverageValue";
  value = none;
  average_value = some (show_ℤ n);
  average_utilization = none;
}

abbrev pub build_metric_target : MetricTargetSpec → MetricTarget
build_metric_target target = record {
  type = target.type;
  value = target.value;
  average_value = target.average_value;
  average_utilization = target.average_utilization;
}

-- A type that is neither Pods nor External is rendered as Pods.
unfoldable pub build_custom_metric : CustomMetric → MetricSpec
build_custom_metric custom =
    if str_eq custom.metric_type "Pods"
    then pods_metric custom.name (build_metric_target custom.target)
    else if str_eq custom.metric_type "External"
    then external_metric custom.name (build_metric_target custom.target)
    else pods_metric custom.name (build_metric_target custom.target)

abbrev pub policies_if_any : List ScalingPolicy → Option (List ScalingPolicy)
policies_if_any [] = none
policies_if_any (p ∷ ps) = some (p ∷ ps)

unfoldable pub build_scaling_rules : ScalingRules → HpaScalingRules
build_scaling_rules rules = record {
  stabilization_window_seconds = rules.stabilization_window_seconds;
  select_policy = rules.select_policy;
  policies = policies_if_any rules.policies;
}

abbrev pub rules_if_any : Option ScalingRules → Option HpaScalingRules
rules_if_any none = none
rules_if_any (some rules) = some (build_scaling_rules rules)

unfoldable pub build_behavior : ScalingBehavior → HpaBehavior
unfolding build_scaling_rules
build_behavior behavior = record {
  scale_up = rules_if_any behavior.scale_up;
  scale_down = rules_if_any behavior.scale_down;
}

abbrev pub behavior_if_any : Option ScalingBehavior → Option HpaBehavior
behavior_if_any none = none
behavior_if_any (some behavior) = some (build_behavior behavior)

-- The metrics that `partition_aware` adds.
abbrev pub partition_metrics : AutoScalingConfig → List MetricSpec
partition_metrics autoscaling =
    if autoscaling.partition_aware
    then pods_metric "streamline_consumer_lag" (average_of autoscaling.target_lag_per_partition)
      ∷ pods_metric "streamline_messages_per_second"
          (average_of autoscaling.target_messages_per_second)
      ∷ []
    else []

unfoldable pub hpa_metrics : AutoScalingConfig → List MetricSpec
unfolding build_custom_metric
hpa_metrics autoscaling =
    resource_metric "cpu" autoscaling.target_cpu_utilization
    ∷ resource_metric "memory" autoscaling.target_memory_utilization
    ∷ (map build_custom_metric autoscaling.custom_metrics ++ partition_metrics autoscaling)

abbrev pub hpa_name : StreamlineCluster → String
hpa_name cluster = format (cluster.metadata.name_any ∷ "-hpa" ∷ [])

-- The result of the source is always `Ok`.
unfoldable pub build_hpa : StreamlineCluster → String → AutoScalingConfig → HorizontalPodAutoscaler
unfolding hpa_metrics build_behavior format
build_hpa cluster namespace autoscaling = record {
  metadata = record {
    name = hpa_name cluster;
    namespace = namespace;
    labels = common_labels cluster;
    owner_references = owner_reference cluster ∷ [];
  };
  scale_target_ref = record {
    api_version = some "apps/v1";
    kind = "StatefulSet";
    name = cluster.metadata.name_any;
  };
  min_replicas = some autoscaling.min_replicas;
  max_replicas = autoscaling.max_replicas;
  metrics = some (hpa_metrics autoscaling);
  behavior = behavior_if_any autoscaling.behavior;
}
