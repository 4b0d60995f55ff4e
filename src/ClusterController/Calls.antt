-- ===== src/ClusterController/Calls.antt =====
-- The calls of src/controllers/cluster.rs and of the HPA part of src/controllers/autoscaling.rs, and
-- what answers them.
use streamline_operator.Base.{
  ℕ, String, Bool, false, ◌&&◌, Option, some, List, Result, any, filter, length, str_eq,
}
use streamline_operator.Base.Int.{ℤ, as_i32}
use streamline_operator.Crd.Cluster.{ClusterStatus}
use streamline_operator.Runtime.{KubeError}
use streamline_operator.Autoscaling.Hpa.{HorizontalPodAutoscaler}
use streamline_operator.ClusterController.Workloads.{ConfigMap, Service, StatefulSet}

-- An object that the controller reads by name and then patches or creates.
pub data Workload : Type 0 where
  config_map_of : ConfigMap → Workload
  service_of : Service → Workload
  stateful_set_of : StatefulSet → Workload
  hpa_of : HorizontalPodAutoscaler → Workload

-- A call that the controller makes, with its namespace and name.
pub data ClusterCall : Type 0 where
  apply_finalizers : String → String → List String → ClusterCall
  merge_finalizers : String → String → List String → ClusterCall
  list_claims : String → String → ClusterCall
  delete_claim : String → String → ClusterCall
  list_pods : String → String → ClusterCall
  delete_hpa_call : String → String → ClusterCall
  get_object : String → String → ClusterCall
  patch_object : String → String → Workload → ClusterCall
  create_object : String → String → Workload → ClusterCall
  patch_status : String → String → ClusterStatus → ClusterCall

-- The conditions of a pod, as types and statuses, where the pod has a status and the status has them.
pub record Pod : Type 0 where
  pub conditions : Option (Option (List (String × String)))

-- The API server and the clock, each a function of the calls made before.
pub record ClusterEnv : Type 0 where
  pub write : List ClusterCall → ClusterCall → Result KubeError (Unit {0})
  pub claims : List ClusterCall → String → String → Result KubeError (List (Option String))
  pub pods : List ClusterCall → String → String → Result KubeError (List Pod)
  pub now : List ClusterCall → String
  pub elapsed_ms : List ClusterCall → ℕ

abbrev pub is_ready_condition : String × String → Bool
is_ready_condition (type, status) = str_eq type "Ready" && str_eq status "True"

abbrev pub pod_is_ready : Pod → Bool
pod_is_ready pod = any_ready pod.conditions
  where
    any_ready : Option (Option (List (String × String))) → Bool
    any_ready (some (some cs)) = any is_ready_condition cs
    any_ready _ = false

-- The `ready_count` of `update_status`.
abbrev pub ready_count : List Pod → ℤ
ready_count pods = as_i32 (length (filter pod_is_ready pods))
