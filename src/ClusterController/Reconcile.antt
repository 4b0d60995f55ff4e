-- ===== src/ClusterController/Reconcile.antt =====
-- The reconciler of src/controllers/cluster.rs, from `reconcile` down, and the HPA part of
-- src/controllers/autoscaling.rs that it calls.
pub mod FailClosed
pub mod Unscaled
pub mod Teardown
use streamline_operator.Base.{
  ℕ, String, Bool, true, false, not, ◌&&◌, Option, none, some, List, [], ◌∷◌, Result, ok, err,
  unwrap_or, ◌==◌, if◌then◌else◌,
}
use streamline_operator.Base.Int.{ℤ, pos}
use streamline_operator.Base.Finalizers.{has, without}
use streamline_operator.Base.Text.{format, join}
use streamline_operator.Error.{OperatorError, kube_api}
use streamline_operator.Metrics.{inc_reconcile, inc_success, inc_error}
use streamline_operator.Conditions.{cluster_finalizer}
use streamline_operator.Crd.Meta.{is_deleting}
use streamline_operator.Crd.Cluster.{
  StreamlineCluster, ClusterSpec, ClusterStatus, ClusterStatus-discrete, AutoScalingSpec,
}
use streamline_operator.Runtime.{
  KubeError, Action, requeue, await_change, World, Exec, pure, fail, call, meter, kube, timed,
  now_at, with_error_policy, ◌>>=◌, ◌>>◌,
}
use streamline_operator.Status.{is_published}
use streamline_operator.Controllers.{error_policy_backoff}
use streamline_operator.Validate.{validate}
use streamline_operator.Autoscaling.{AutoScalingConfig, derived_default}
use streamline_operator.Autoscaling.Hpa.{build_hpa, hpa_name}
use streamline_operator.ClusterController.Workloads.{
  build_configmap, headless_service, client_service, build_statefulset,
}
use streamline_operator.ClusterController.Statuses.{invalid_status, observed_status}
use streamline_operator.ClusterController.Calls.{
  Workload, config_map_of, service_of, stateful_set_of, hpa_of, ClusterCall, apply_finalizers,
  merge_finalizers, list_claims, delete_claim, list_pods, delete_hpa_call, get_object, patch_object,
  create_object, patch_status, Pod, ClusterEnv, ready_count,
}

unfoldable pub desired_hpa_config : Option AutoScalingSpec → Bool → AutoScalingConfig
desired_hpa_config none spec_is_valid = record derived_default { enabled = false }
desired_hpa_config (some a) spec_is_valid = record derived_default {
  enabled = a.enabled && spec_is_valid;
  min_replicas = a.min_replicas;
  max_replicas = a.max_replicas;
  target_cpu_utilization = a.target_cpu_utilization;
  target_memory_utilization = a.target_memory_utilization;
  partition_aware = a.partition_aware;
  target_lag_per_partition = a.target_lag_per_partition;
  target_messages_per_second = a.target_messages_per_second;
}

pub data HpaAction : Type 0 where
  apply delete : HpaAction

unfoldable pub hpa_action : AutoScalingConfig → HpaAction
hpa_action autoscaling = if autoscaling.enabled then apply else delete

pub data DeleteOutcome : Type 0 where
  gone propagate : DeleteOutcome

unfoldable pub classify_delete_error : KubeError → DeleteOutcome
classify_delete_error error = of_code error.api_code
  where
    of_code : Option ℕ → DeleteOutcome
    of_code none = propagate
    of_code (some code) = if code == 404 then gone else propagate

abbrev pub namespace_of : StreamlineCluster → String
namespace_of cluster = unwrap_or "default" cluster.metadata.namespace

abbrev pub finalizers_of : StreamlineCluster → List String
finalizers_of cluster = unwrap_or [] cluster.metadata.finalizers

-- The answer to the delete of an HPA, by the class of its error.
unfoldable pub after_delete :
    StreamlineCluster → String → KubeError → DeleteOutcome → Exec ClusterCall (Unit {0})
unfolding format
after_delete cluster namespace e gone = pure tt
after_delete cluster namespace e propagate = fail (
    kube_api (
      format (
        "failed to delete HPA "
        ∷ hpa_name cluster
        ∷ " in namespace "
        ∷ namespace
        ∷ ": "
        ∷ e.text
        ∷ [])))

unfoldable pub deleted :
    StreamlineCluster → String → Result KubeError (Unit {0}) → Exec ClusterCall (Unit {0})
unfolding after_delete
deleted cluster namespace (ok _) = pure tt
deleted cluster namespace (err e) = after_delete cluster namespace e (classify_delete_error e)

abbrev pub is_ok : Result (List String) (Unit {0}) → Bool
is_ok (ok _) = true
is_ok (err _) = false

module _ (env : ClusterEnv) where
  unfoldable pub write : ClusterCall → Exec ClusterCall (Unit {0})
  write c = kube c (λ before. env.write before c)

  -- A call whose error is matched on, or dropped.
  unfoldable pub attempt : ClusterCall → Exec ClusterCall (Result KubeError (Unit {0}))
  attempt c = call c (λ before. env.write before c)

  -- `match api.get(name).await { Ok(_) => patch, Err(_) => create }`
  unfoldable pub patch_or_create :
      String → String → Workload → Result KubeError (Unit {0}) → Exec ClusterCall (Unit {0})
  unfolding write
  patch_or_create namespace name object (ok _) = write (patch_object namespace name object)
  patch_or_create namespace name object (err _) = write (create_object namespace name object)

  -- `apply_service`, and what `reconcile_configmap`, `reconcile_statefulset` and `reconcile_hpa` do
  -- alike.
  unfoldable pub apply_object : String → String → Workload → Exec ClusterCall (Unit {0})
  unfolding attempt patch_or_create
  apply_object namespace name object = do
    existing ← attempt (get_object namespace name)
    patch_or_create namespace name object existing

  unfoldable pub delete_hpa : StreamlineCluster → String → Exec ClusterCall (Unit {0})
  unfolding attempt deleted format
  delete_hpa cluster namespace = do
    answer ← attempt (delete_hpa_call namespace (hpa_name cluster))
    deleted cluster namespace answer

  unfoldable pub by_action :
      HpaAction → StreamlineCluster → String → AutoScalingConfig → Exec ClusterCall (Unit {0})
  unfolding delete_hpa apply_object format
  by_action delete cluster namespace config = delete_hpa cluster namespace
  by_action apply cluster namespace config =
      apply_object namespace (hpa_name cluster) (hpa_of (build_hpa cluster namespace config))

  -- `AutoScalingController::reconcile_hpa`
  unfoldable pub reconcile_hpa :
      StreamlineCluster → String → AutoScalingConfig → Exec ClusterCall (Unit {0})
  unfolding by_action hpa_action
  reconcile_hpa cluster namespace config = by_action (hpa_action config) cluster namespace config

  unfoldable pub reconcile_configmap : StreamlineCluster → String → Exec ClusterCall (Unit {0})
  unfolding apply_object format
  reconcile_configmap cluster namespace =
      apply_object namespace (format (cluster.metadata.name_any ∷ "-config" ∷ []))
        (config_map_of (build_configmap cluster namespace))

  unfoldable pub reconcile_headless_service :
      StreamlineCluster → String → Exec ClusterCall (Unit {0})
  unfolding apply_object format
  reconcile_headless_service cluster namespace =
      apply_object namespace (format (cluster.metadata.name_any ∷ "-headless" ∷ []))
        (service_of (headless_service cluster namespace))

  unfoldable pub reconcile_client_service : StreamlineCluster → String → Exec ClusterCall (Unit {0})
  unfolding apply_object
  reconcile_client_service cluster namespace =
      apply_object namespace cluster.metadata.name_any
        (service_of (client_service cluster namespace))

  unfoldable pub reconcile_statefulset : StreamlineCluster → String → Exec ClusterCall (Unit {0})
  unfolding apply_object
  reconcile_statefulset cluster namespace =
      apply_object namespace cluster.metadata.name_any
        (stateful_set_of (build_statefulset cluster namespace))

  unfoldable pub ensure_finalizer : StreamlineCluster → String → Exec ClusterCall (Unit {0})
  unfolding write
  ensure_finalizer cluster namespace =
      if has cluster_finalizer (finalizers_of cluster)
      then pure tt
      else write (apply_finalizers namespace cluster.metadata.name_any (cluster_finalizer ∷ []))

  -- The best-effort deletes of the claims that have a name.
  unfoldable pub delete_claims : String → List (Option String) → Exec ClusterCall (Unit {0})
  unfolding attempt
  delete_claims namespace [] = pure tt
  delete_claims namespace (none ∷ names) = delete_claims namespace names
  delete_claims namespace (some name ∷ names) = do
    attempt (delete_claim namespace name)
    delete_claims namespace names

  unfoldable pub handle_deletion : StreamlineCluster → String → Exec ClusterCall Action
  unfolding delete_claims write format
  handle_deletion cluster namespace =
      let name = cluster.metadata.name_any in
      let selector = format ("app.kubernetes.io/instance=" ∷ name ∷ []) in
      do
        names ←
            kube (list_claims namespace selector) (λ before. env.claims before namespace selector)
        delete_claims namespace names
        write (merge_finalizers namespace name (without cluster_finalizer (finalizers_of cluster)))
        pure await_change

  unfoldable pub patch_status_if_changed :
      StreamlineCluster → String → ClusterStatus → Exec ClusterCall (Unit {0})
  unfolding write
  patch_status_if_changed cluster namespace status =
      if is_published ClusterStatus-discrete cluster.status status
      then pure tt
      else write (patch_status namespace cluster.metadata.name_any status)

  unfoldable pub update_status_invalid :
      StreamlineCluster → String → String → Exec ClusterCall (Unit {0})
  unfolding patch_status_if_changed
  update_status_invalid cluster namespace message = do
    now ← now_at env.now
    patch_status_if_changed cluster namespace (invalid_status now cluster message)

  unfoldable pub update_status : StreamlineCluster → String → Exec ClusterCall (Unit {0})
  unfolding patch_status_if_changed format
  update_status cluster namespace =
      let selector = format ("app.kubernetes.io/instance=" ∷ cluster.metadata.name_any ∷ []) in
      do
        pods ← kube (list_pods namespace selector) (λ before. env.pods before namespace selector)
        now ← now_at env.now
        patch_status_if_changed cluster namespace
            (observed_status now cluster namespace (ready_count pods))

  -- `if hpa_config.enabled` and `if !hpa_config.enabled`
  unfoldable pub hpa_if :
      Bool → StreamlineCluster → String → AutoScalingConfig → Exec ClusterCall (Unit {0})
  unfolding reconcile_hpa
  hpa_if test cluster namespace config =
      if test then reconcile_hpa cluster namespace config else pure tt

  -- What follows the validation.
  unfoldable pub validated :
      StreamlineCluster
      → String
      → AutoScalingConfig
      → Result (List String) (Unit {0})
      → Exec ClusterCall Action
  unfolding update_status_invalid reconcile_configmap reconcile_headless_service
      reconcile_client_service reconcile_statefulset hpa_if update_status
  validated cluster namespace config (err errors) = do
    update_status_invalid cluster namespace (join "; " errors)
    meter (inc_error "cluster")
    pure (requeue 300)
  validated cluster namespace config (ok _) = do
    reconcile_configmap cluster namespace
    reconcile_headless_service cluster namespace
    reconcile_client_service cluster namespace
    reconcile_statefulset cluster namespace
    hpa_if config.enabled cluster namespace config
    update_status cluster namespace
    meter inc_success
    pure (requeue 60)

  unfoldable pub reconcile_live : StreamlineCluster → String → Exec ClusterCall Action
  unfolding ensure_finalizer hpa_if validated
  reconcile_live cluster namespace =
      let validation = validate cluster.spec in
      let config = desired_hpa_config cluster.spec.autoscaling (is_ok validation) in
      do
        ensure_finalizer cluster namespace
        hpa_if (not config.enabled) cluster namespace config
        validated cluster namespace config validation

  unfoldable pub reconcile : StreamlineCluster → Exec ClusterCall Action
  unfolding reconcile_live handle_deletion
  reconcile cluster =
      let namespace = namespace_of cluster in
      do
        meter (inc_reconcile "cluster")
        timed env.elapsed_ms (
            if is_deleting cluster.metadata
            then handle_deletion cluster namespace
            else reconcile_live cluster namespace)

  -- One pass of the controller that `run` starts.
  unfoldable pub run_once : StreamlineCluster → World ClusterCall → Action × World ClusterCall
  unfolding reconcile
  run_once cluster =
      with_error_policy (inc_error "cluster") error_policy_backoff (reconcile cluster)
