-- ===== src/ClusterController/Statuses.antt =====
-- The statuses of src/controllers/cluster.rs: `seeded_conditions`, `with_stable_timestamp`,
-- `invalid_status` and `observed_status`. `now` stands for every `Utc::now().to_rfc3339()` of one pass.
pub mod Stable
pub mod Coherent
use streamline_operator.Base.{
  ℕ, zero, suc, String, Bool, true, false, Option, none, some, List, [], ◌∷◌, ◌++◌, map,
  if◌then◌else◌,
}
use streamline_operator.Base.Int.{ℤ, pos, negsuc, ltb_ℤ, eqb_ℤ}
use streamline_operator.Base.Text.{format, show_ℤ, show_ℕ}
use streamline_operator.Conditions.{
  ConditionFields, build_condition, set_all, condition_true, condition_false,
  cluster_condition_ready, cluster_condition_available, cluster_condition_progressing,
  cluster_condition_degraded,
}
use streamline_operator.Crd.Cluster.{
  StreamlineCluster, ClusterStatus, ClusterCondition, ClusterPhase, pending, running, scaling,
  failed, ClusterStatus-discrete,
}
use streamline_operator.Status

-- `ConditionFields::into_cluster_condition`
abbrev pub into_cluster_condition : ConditionFields → ClusterCondition
into_cluster_condition c = record {
  type = c.condition_type;
  status = c.status;
  last_transition_time = c.last_transition_time;
  reason = c.reason;
  message = c.message;
}

abbrev pub of_cluster_condition : ClusterCondition → ConditionFields
of_cluster_condition c = record {
  condition_type = c.type;
  status = c.status;
  last_transition_time = c.last_transition_time;
  reason = c.reason;
  message = c.message;
}

abbrev pub conditions_of : Option ClusterStatus → List ClusterCondition
conditions_of none = []
conditions_of (some status) = status.conditions

unfoldable pub seeded_conditions : StreamlineCluster → List ConditionFields
seeded_conditions cluster = map of_cluster_condition (conditions_of cluster.status)

abbrev pub get_last_updated : ClusterStatus → Option String
get_last_updated s = s.last_updated

abbrev pub put_last_updated : Option String → ClusterStatus → ClusterStatus
put_last_updated t s = record s { last_updated = t }

unfoldable pub with_stable_timestamp : String → StreamlineCluster → ClusterStatus → ClusterStatus
with_stable_timestamp now cluster status =
    Status.with_stable_timestamp ClusterStatus-discrete get_last_updated put_last_updated now
      cluster.status status

-- The status literal that ends each builder.
abbrev pub status_of :
    StreamlineCluster → ClusterPhase → ℤ → List String → List ConditionFields → ClusterStatus
status_of cluster phase ready_replicas broker_endpoints cond_fields = record {
  phase = phase;
  ready_replicas = ready_replicas;
  replicas = cluster.spec.replicas;
  leader_id = none;
  broker_endpoints = broker_endpoints;
  conditions = map into_cluster_condition cond_fields;
  observed_generation = cluster.metadata.generation;
  last_updated = none;
}

-- The calls of `set_condition` on the seeded conditions, then the literal.
abbrev pub status_with :
    StreamlineCluster → ClusterPhase → ℤ → List String → List ConditionFields → ClusterStatus
status_with cluster phase ready_replicas broker_endpoints news =
    status_of cluster phase ready_replicas broker_endpoints
      (set_all (seeded_conditions cluster) news)

-- The conditions of `invalid_spec_conditions`.
abbrev pub invalid_conditions : String → String → List ConditionFields
invalid_conditions now message =
    build_condition now cluster_condition_ready condition_false "InvalidSpec" message
    ∷ build_condition now cluster_condition_available condition_false "InvalidSpec" message
    ∷ build_condition now cluster_condition_progressing condition_false "InvalidSpec"
        "Reconciliation is blocked until the spec is corrected"
    ∷ build_condition now cluster_condition_degraded condition_true "InvalidSpec" message
    ∷ []

unfoldable pub invalid_status : String → StreamlineCluster → String → ClusterStatus
invalid_status now cluster message =
    with_stable_timestamp now cluster
      (status_with cluster failed (pos 0) [] (invalid_conditions now message))

unfoldable pub observed_phase : ℤ → ℤ → ClusterPhase
observed_phase desired ready_count =
    if eqb_ℤ ready_count desired
    then running
    else if ltb_ℤ (pos 0) ready_count
    then scaling
    else pending

unfoldable pub ready_condition : String → ℤ → ℤ → ConditionFields
unfolding format
ready_condition now desired ready_count =
    let message = format (show_ℤ ready_count ∷ "/" ∷ show_ℤ desired ∷ " brokers ready" ∷ []) in
    if eqb_ℤ ready_count desired
    then build_condition now cluster_condition_ready condition_true "AllBrokersReady" message
    else build_condition now cluster_condition_ready condition_false "BrokersNotReady" message

unfoldable pub available_condition : String → ℤ → ConditionFields
unfolding format
available_condition now ready_count =
    if ltb_ℤ (pos 0) ready_count
    then build_condition now cluster_condition_available condition_true "MinimumAvailable"
        (format (show_ℤ ready_count ∷ " broker(s) available" ∷ []))
    else build_condition now cluster_condition_available condition_false "NoBrokersAvailable"
        "No brokers are available"

unfoldable pub progressing_condition : String → ℤ → ℤ → ConditionFields
unfolding format
progressing_condition now desired ready_count =
    if ltb_ℤ ready_count desired
    then build_condition now cluster_condition_progressing condition_true "ScalingUp"
        (format ("Scaling from " ∷ show_ℤ ready_count ∷ " to " ∷ show_ℤ desired ∷ " replicas" ∷ []))
    else if ltb_ℤ desired ready_count
    then build_condition now cluster_condition_progressing condition_true "ScalingDown" (
        format
          ("Scaling down from " ∷ show_ℤ ready_count ∷ " to " ∷ show_ℤ desired ∷ " replicas" ∷ []))
    else build_condition now cluster_condition_progressing condition_false "UpToDate"
        "All replicas are up to date"

unfoldable pub degraded_condition : String → ℤ → ℤ → ConditionFields
unfolding format
degraded_condition now desired ready_count =
    if eqb_ℤ ready_count desired
    then build_condition now cluster_condition_degraded condition_false "Healthy"
        "Cluster is healthy"
    else if eqb_ℤ ready_count (pos 0)
    then build_condition now cluster_condition_degraded condition_true "NoBrokersReady"
        (format ("No brokers are ready (0/" ∷ show_ℤ desired ∷ ")" ∷ []))
    else if ltb_ℤ ready_count desired
    then build_condition now cluster_condition_degraded condition_true "PartiallyReady"
        (format ("Only " ∷ show_ℤ ready_count ∷ "/" ∷ show_ℤ desired ∷ " brokers ready" ∷ []))
    else build_condition now cluster_condition_degraded condition_true "TooManyReadyBrokers" (
        format (
          show_ℤ ready_count
          ∷ "/"
          ∷ show_ℤ desired
          ∷ " brokers ready; expected exactly "
          ∷ show_ℤ desired
          ∷ []))

abbrev pub observed_conditions : String → ℤ → ℤ → List ConditionFields
observed_conditions now desired ready_count =
    ready_condition now desired ready_count
    ∷ available_condition now ready_count
    ∷ progressing_condition now desired ready_count
    ∷ degraded_condition now desired ready_count
    ∷ []

unfoldable pub broker_endpoint : String → String → ℤ → ℕ → String
unfolding format
broker_endpoint name namespace port i =
    format
      (name ∷ "-" ∷ show_ℕ i ∷ "." ∷ name ∷ "-headless." ∷ namespace ∷ ".svc:" ∷ show_ℤ port ∷ [])

-- The endpoints of `(0..n)`, in order.
unfoldable pub broker_endpoints_to : String → String → ℤ → ℕ → List String
unfolding broker_endpoint
broker_endpoints_to name namespace port zero = []
broker_endpoints_to name namespace port (suc n) =
    broker_endpoints_to name namespace port n ++ (broker_endpoint name namespace port n ∷ [])

-- `(0..desired)` is empty for a negative count.
abbrev pub brokers_in : String → String → ℤ → ℤ → List String
brokers_in name namespace port (pos n) = broker_endpoints_to name namespace port n
brokers_in name namespace port (negsuc n) = []

unfoldable pub broker_endpoints : StreamlineCluster → String → List String
unfolding broker_endpoints_to
broker_endpoints cluster namespace =
    brokers_in cluster.metadata.name_any namespace cluster.spec.kafka_port cluster.spec.replicas

unfoldable pub observed_status : String → StreamlineCluster → String → ℤ → ClusterStatus
observed_status now cluster namespace ready_count = with_stable_timestamp now cluster (
    status_with cluster (observed_phase cluster.spec.replicas ready_count) ready_count
      (broker_endpoints cluster namespace)
      (observed_conditions now cluster.spec.replicas ready_count))
