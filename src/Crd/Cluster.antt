-- ===== src/Crd/Cluster.antt =====
-- src/crd/cluster.rs: the StreamlineCluster resource, its defaults and its status. The environment
-- entries stand in Crd/Env, the validation in Validate.
use streamline_operator.Base.{String, Bool, true, false, Option, none, some, List, [], ◌∷◌}
use streamline_operator.Base.Int.{ℤ, pos, ℤ-discrete}
use streamline_operator.Base.Text.{String-discrete}
use streamline_operator.Crd.Meta.{ObjectMeta}
use streamline_operator.Crd.Env.{EnvVar}

pub record ScalingPolicySpec : Type 0 where
  pub type : String
  pub value : ℤ
  pub period_seconds : ℤ

pub record ScalingRulesSpec : Type 0 where
  pub stabilization_window_seconds : Option ℤ
  pub select_policy : Option String
  pub policies : List ScalingPolicySpec

pub record ScalingBehaviorSpec : Type 0 where
  pub scale_up : Option ScalingRulesSpec
  pub scale_down : Option ScalingRulesSpec

pub record AutoScalingSpec : Type 0 where
  pub enabled : Bool
  pub min_replicas : ℤ
  pub max_replicas : ℤ
  pub target_cpu_utilization : ℤ
  pub target_memory_utilization : ℤ
  pub partition_aware : Bool
  pub target_lag_per_partition : ℤ
  pub target_messages_per_second : ℤ
  pub behavior : Option ScalingBehaviorSpec

pub record ResourceList : Type 0 where
  pub cpu : Option String
  pub memory : Option String

pub record ResourceRequirements : Type 0 where
  pub limits : ResourceList
  pub requests : ResourceList

pub record ClusterStorage : Type 0 where
  pub storage_class_name : Option String
  pub size : String
  pub access_modes : List String

pub record ClusterTls : Type 0 where
  pub enabled : Bool
  pub secret_name : String
  pub mtls_enabled : Bool
  pub ca_secret_name : Option String
  pub insecure_skip_verify : Bool

pub record Toleration : Type 0 where
  pub key : Option String
  pub operator : Option String
  pub value : Option String
  pub effect : Option String
  pub toleration_seconds : Option ℤ

pub record RackAwareness : Type 0 where
  pub enabled : Bool
  pub topology_key : String

pub record UpdateStrategy : Type 0 where
  pub type : String
  pub max_unavailable : Option ℤ

-- The numbers are i32; a map is a list of its entries in the order of the keys.
pub record ClusterSpec : Type 0 where
  pub replicas : ℤ
  pub image : String
  pub image_pull_policy : String
  pub resources : ResourceRequirements
  pub storage : ClusterStorage
  pub tls : Option ClusterTls
  pub kafka_port : ℤ
  pub http_port : ℤ
  pub raft_port : ℤ
  pub env : List EnvVar
  pub node_selector : List (String × String)
  pub tolerations : List Toleration
  pub pod_anti_affinity : Bool
  pub rack_awareness : Option RackAwareness
  pub service_account_name : Option String
  pub log_level : String
  pub metrics_enabled : Bool
  pub update_strategy : UpdateStrategy
  pub autoscaling : Option AutoScalingSpec

pub data ClusterPhase : Type 0 where
  pending running scaling upgrading failed terminating : ClusterPhase

pub record ClusterCondition : Type 0 where
  pub type : String
  pub status : String
  pub last_transition_time : Option String
  pub reason : Option String
  pub message : Option String

pub record ClusterStatus : Type 0 where
  pub phase : ClusterPhase
  pub ready_replicas : ℤ
  pub replicas : ℤ
  pub leader_id : Option ℤ
  pub broker_endpoints : List String
  pub conditions : List ClusterCondition
  pub observed_generation : Option ℤ
  pub last_updated : Option String

pub record StreamlineCluster : Type 0 where
  pub metadata : ObjectMeta
  pub spec : ClusterSpec
  pub status : Option ClusterStatus

abbrev pub default_storage : ClusterStorage
default_storage = record {
  storage_class_name = none;
  size = "10Gi";
  access_modes = "ReadWriteOnce" ∷ [];
}

abbrev pub default_update_strategy : UpdateStrategy
default_update_strategy = record { type = "RollingUpdate"; max_unavailable = some (pos 1) }

-- What the schema's defaults make of an empty `spec`.
abbrev pub default_spec : ClusterSpec
default_spec = record {
  replicas = pos 1;
  image = "ghcr.io/streamlinelabs/streamline:0.4.0";
  image_pull_policy = "IfNotPresent";
  resources = record {
    limits = record { cpu = none; memory = none };
    requests = record { cpu = none; memory = none };
  };
  storage = default_storage;
  tls = none;
  kafka_port = pos 9092;
  http_port = pos 9094;
  raft_port = pos 9095;
  env = [];
  node_selector = [];
  tolerations = [];
  pod_anti_affinity = false;
  rack_awareness = none;
  service_account_name = none;
  log_level = "info";
  metrics_enabled = true;
  update_strategy = default_update_strategy;
  autoscaling = none;
}

-- The derived `PartialEq` of the status.
pub ClusterStatus-discrete : Discrete ClusterStatus
ClusterStatus-discrete = hlevel (ℤ-discrete, String-discrete)
