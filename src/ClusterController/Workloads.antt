-- ===== src/ClusterController/Workloads.antt =====
-- The objects that src/controllers/cluster.rs renders for a cluster, with the fields that it sets.
pub mod Rendered
use streamline_operator.Base.{
  ℕ, String, Bool, true, false, Option, none, some, List, [], ◌∷◌, ◌++◌, Result, ok, err, is_empty,
  unwrap_or, str_eq, if◌then◌else◌,
}
use streamline_operator.Base.Int.{ℤ}
use streamline_operator.Base.Text.{format, show_ℤ}
use streamline_operator.Crd.Env.{EnvVarRef, secret, config_map, resolve_source}
use streamline_operator.Crd.Env
use streamline_operator.Crd.Cluster.{
  StreamlineCluster, ClusterSpec, ClusterStorage, UpdateStrategy, ResourceRequirements,
}
use streamline_operator.ClusterController.Config.{
  Volume, VolumeMount, build_config_and_tls_volumes, config_file_name, config_file_path,
  render_config,
}

-- A `BTreeMap` as its entries in the order of the keys.
abbrev pub Entries : Type 0
Entries = List (String × String)

unfoldable pub pod_selector : StreamlineCluster → Entries
pod_selector cluster =
    ("app.kubernetes.io/instance", cluster.metadata.name_any)
    ∷ ("app.kubernetes.io/name", "streamline")
    ∷ []

unfoldable pub common_labels : StreamlineCluster → Entries
common_labels cluster =
    ("app.kubernetes.io/instance", cluster.metadata.name_any)
    ∷ ("app.kubernetes.io/managed-by", "streamline-operator")
    ∷ ("app.kubernetes.io/name", "streamline")
    ∷ []

pub record OwnerReference : Type 0 where
  pub api_version : String
  pub kind : String
  pub name : String
  pub uid : String
  pub controller : Bool
  pub block_owner_deletion : Bool

unfoldable pub owner_reference : StreamlineCluster → OwnerReference
owner_reference cluster = record {
  api_version = "streamline.io/v1alpha1";
  kind = "StreamlineCluster";
  name = cluster.metadata.name_any;
  uid = unwrap_or "" cluster.metadata.uid;
  controller = true;
  block_owner_deletion = true;
}

pub record OwnedMeta : Type 0 where
  pub name : String
  pub namespace : String
  pub labels : Entries
  pub owner_references : List OwnerReference

abbrev pub owned_meta : StreamlineCluster → String → String → OwnedMeta
owned_meta cluster name namespace = record {
  name = name;
  namespace = namespace;
  labels = common_labels cluster;
  owner_references = owner_reference cluster ∷ [];
}

pub record ConfigMap : Type 0 where
  pub metadata : OwnedMeta
  pub data_entries : Entries

unfoldable pub build_configmap : StreamlineCluster → String → ConfigMap
unfolding format
build_configmap cluster namespace = record {
  metadata = owned_meta cluster (format (cluster.metadata.name_any ∷ "-config" ∷ [])) namespace;
  data_entries = (config_file_name, render_config cluster) ∷ [];
}

pub record Service : Type 0 where
  pub metadata : OwnedMeta
  pub cluster_ip : Option String
  pub selector : Entries
  pub ports : List (String × ℤ)
  pub publish_not_ready_addresses : Option Bool

-- The object of `reconcile_headless_service`.
unfoldable pub headless_service : StreamlineCluster → String → Service
unfolding format
headless_service cluster namespace = record {
  metadata = owned_meta cluster (format (cluster.metadata.name_any ∷ "-headless" ∷ [])) namespace;
  cluster_ip = some "None";
  selector = pod_selector cluster;
  ports =
      ("kafka", cluster.spec.kafka_port)
      ∷ ("http", cluster.spec.http_port)
      ∷ ("raft", cluster.spec.raft_port)
      ∷ [];
  publish_not_ready_addresses = some true;
}

-- The object of `reconcile_client_service`.
unfoldable pub client_service : StreamlineCluster → String → Service
client_service cluster namespace = record {
  metadata = owned_meta cluster cluster.metadata.name_any namespace;
  cluster_ip = none;
  selector = pod_selector cluster;
  ports = ("kafka", cluster.spec.kafka_port) ∷ ("http", cluster.spec.http_port) ∷ [];
  publish_not_ready_addresses = none;
}

-- The container's source of a variable: a field of the pod, or what the kubelet resolves.
pub data ContainerSource : Type 0 where
  field_ref : String → ContainerSource
  secret_key_ref : String → String → ContainerSource
  config_map_key_ref : String → String → ContainerSource

pub record ContainerEnv : Type 0 where
  pub name : String
  pub value : Option String
  pub value_from : Option ContainerSource

unfoldable pub build_env_var_source : EnvVarRef → ContainerSource
build_env_var_source (secret s) = secret_key_ref s.name s.key
build_env_var_source (config_map c) = config_map_key_ref c.name c.key

abbrev pub literal : String → String → ContainerEnv
literal name value = record { name = name; value = some value; value_from = none }

abbrev pub from_field : String → String → ContainerEnv
from_field name path = record { name = name; value = none; value_from = some (field_ref path) }

unfoldable pub base_env : ClusterSpec → List ContainerEnv
unfolding format
base_env spec =
    literal "STREAMLINE_CONFIG" config_file_path
    ∷ literal "STREAMLINE_DATA_DIR" "/data"
    ∷ literal "STREAMLINE_LISTEN_ADDR" (format ("0.0.0.0:" ∷ show_ℤ spec.kafka_port ∷ []))
    ∷ literal "STREAMLINE_HTTP_ADDR" (format ("0.0.0.0:" ∷ show_ℤ spec.http_port ∷ []))
    ∷ literal "STREAMLINE_LOG_LEVEL" spec.log_level
    ∷ from_field "POD_NAME" "metadata.name"
    ∷ from_field "POD_NAMESPACE" "metadata.namespace"
    ∷ []

-- What one entry of `spec.env` pushes: an entry that does not resolve is dropped.
unfoldable pub push_env : Env.EnvVar → Result String (Option EnvVarRef) → List ContainerEnv
push_env env (ok none) = record { name = env.name; value = env.value; value_from = none } ∷ []
push_env env (ok (some source)) =
    record { name = env.name; value = none; value_from = some (build_env_var_source source) } ∷ []
push_env env (err reason) = []

unfoldable pub custom_env : List Env.EnvVar → List ContainerEnv
unfolding push_env
custom_env [] = []
custom_env (env ∷ envs) = push_env env (resolve_source env) ++ custom_env envs

-- The `env_vars` of `build_statefulset`.
unfoldable pub env_vars : ClusterSpec → List ContainerEnv
unfolding base_env custom_env
env_vars spec = base_env spec ++ custom_env spec.env

abbrev pub entry : String → Option String → Entries
entry key none = []
entry key (some value) = (key, value) ∷ []

abbrev pub if_any : Entries → Option Entries
if_any [] = none
if_any (e ∷ es) = some (e ∷ es)

pub record ContainerResources : Type 0 where
  pub limits : Option Entries
  pub requests : Option Entries

unfoldable pub build_resource_requirements : ResourceRequirements → ContainerResources
build_resource_requirements spec = record {
  limits = if_any (entry "cpu" spec.limits.cpu ++ entry "memory" spec.limits.memory);
  requests = if_any (entry "cpu" spec.requests.cpu ++ entry "memory" spec.requests.memory);
}

pub record VolumeClaim : Type 0 where
  pub name : String
  pub access_modes : List String
  pub storage_class_name : Option String
  pub requests : Entries

unfoldable pub build_volume_claim_templates : ClusterStorage → List VolumeClaim
build_volume_claim_templates storage =
    record {
      name = "data";
      access_modes = storage.access_modes;
      storage_class_name = storage.storage_class_name;
      requests = ("storage", storage.size) ∷ [];
    }
    ∷ []

pub record Probe : Type 0 where
  pub path : String
  pub port : ℤ
  pub initial_delay_seconds : ℕ
  pub period_seconds : ℕ
  pub timeout_seconds : ℕ
  pub failure_threshold : ℕ

pub record Container : Type 0 where
  pub name : String
  pub image : String
  pub image_pull_policy : String
  pub ports : List (String × ℤ)
  pub env : List ContainerEnv
  pub resources : ContainerResources
  pub volume_mounts : List VolumeMount
  pub liveness_probe : Probe
  pub readiness_probe : Probe
  pub startup_probe : Probe

-- The `container` of `build_statefulset`.
unfoldable pub build_container : StreamlineCluster → Container
unfolding env_vars build_config_and_tls_volumes
build_container cluster =
    let spec = cluster.spec in
    let (_, volume_mounts) = build_config_and_tls_volumes cluster in
    record {
      name = "streamline";
      image = spec.image;
      image_pull_policy = spec.image_pull_policy;
      ports = ("kafka", spec.kafka_port) ∷ ("http", spec.http_port) ∷ ("raft", spec.raft_port) ∷ [];
      env = env_vars spec;
      resources = build_resource_requirements spec.resources;
      volume_mounts =
          record { name = "data"; mount_path = "/data"; read_only = none } ∷ volume_mounts;
      liveness_probe = record {
        path = "/health";
        port = spec.http_port;
        initial_delay_seconds = 30;
        period_seconds = 10;
        timeout_seconds = 5;
        failure_threshold = 3;
      };
      readiness_probe = record {
        path = "/health/ready";
        port = spec.http_port;
        initial_delay_seconds = 10;
        period_seconds = 5;
        timeout_seconds = 3;
        failure_threshold = 3;
      };
      startup_probe = record {
        path = "/health";
        port = spec.http_port;
        initial_delay_seconds = 5;
        period_seconds = 5;
        timeout_seconds = 3;
        failure_threshold = 30;
      };
    }

pub data StatefulSetUpdateStrategy : Type 0 where
  on_delete : StatefulSetUpdateStrategy
  rolling_update : Option ℤ → StatefulSetUpdateStrategy

unfoldable pub update_strategy : UpdateStrategy → StatefulSetUpdateStrategy
update_strategy s = if str_eq s.type "OnDelete" then on_delete else rolling_update s.max_unavailable

pub record StatefulSet : Type 0 where
  pub metadata : OwnedMeta
  pub replicas : ℤ
  pub match_labels : Entries
  pub service_name : String
  pub template_labels : Entries
  pub service_account_name : Option String
  pub containers : List Container
  pub fs_group : ℕ
  pub run_as_non_root : Bool
  pub node_selector : Option Entries
  pub volumes : List Volume
  pub volume_claim_templates : List VolumeClaim
  pub pod_management_policy : String
  pub update_strategy : StatefulSetUpdateStrategy

unfoldable pub build_statefulset : StreamlineCluster → String → StatefulSet
unfolding format build_container build_config_and_tls_volumes
build_statefulset cluster namespace =
    let (volumes, _) = build_config_and_tls_volumes cluster in
    record {
      metadata = owned_meta cluster cluster.metadata.name_any namespace;
      replicas = cluster.spec.replicas;
      match_labels = pod_selector cluster;
      service_name = format (cluster.metadata.name_any ∷ "-headless" ∷ []);
      template_labels = pod_selector cluster;
      service_account_name = cluster.spec.service_account_name;
      containers = build_container cluster ∷ [];
      fs_group = 1000;
      run_as_non_root = true;
      node_selector = if_any cluster.spec.node_selector;
      volumes = volumes;
      volume_claim_templates = build_volume_claim_templates cluster.spec.storage;
      pod_management_policy = "Parallel";
      update_strategy = update_strategy cluster.spec.update_strategy;
    }
