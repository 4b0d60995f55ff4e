-- ===== src/Autoscaling/Recommend.antt =====
-- `generate_recommendation` of src/controllers/autoscaling.rs. A division by zero panics, which is
-- `none`; a product of i64 that leaves the range wraps, as a release build does.
pub mod Panics
pub mod Bounds
use streamline_operator.Base.{
  String, Bool, true, false, ◌&&◌, Option, none, some, List, [], ◌∷◌, ◌++◌, if◌then◌else◌,
}
use streamline_operator.Base.Int.{ℤ, pos, ltb_ℤ, ◌*ℤ◌, as_i64, wrap_i32, divide, quot, max_ℤ, min_ℤ}
use streamline_operator.Base.Float.{Floats}
use streamline_operator.Base.Text.{format, join, show_ℤ}
use streamline_operator.Crd.Cluster.{StreamlineCluster}
use streamline_operator.Autoscaling.{AutoScalingConfig}

pub record ScalingRecommendation : Type 0 where
  pub recommended_replicas : ℤ
  pub current_replicas : ℤ
  pub reason : String
  pub confidence : ℤ
  pub triggering_metrics : List String
  pub timestamp : String

-- The local variables `recommended`, `reasons` and `triggering`.
pub record Draft : Type 0 where
  pub recommended : ℤ
  pub reasons : List String
  pub triggering : List String

abbrev pub propose : ℤ → String → String → Draft → Draft
propose needed reason trigger d = record {
  recommended = needed;
  reasons = d.reasons ++ (reason ∷ []);
  triggering = d.triggering ++ (trigger ∷ []);
}

-- A proposal under a test.
unfoldable pub propose_if : Bool → ℤ → String → String → Draft → Draft
propose_if test needed reason trigger d = if test then propose needed reason trigger d else d

-- `let x = value?; rest`, where a panic ends it all.
unfoldable pub unless_panic : {A B : Type 0} → Option A → (A → Option B) → Option B
unless_panic none rest = none
unless_panic (some a) rest = rest a

abbrev pub clamped : AutoScalingConfig → ℤ → ℤ
clamped autoscaling n = min_ℤ (max_ℤ n autoscaling.min_replicas) autoscaling.max_replicas

abbrev pub confidence_of : List String → ℤ
confidence_of [] = pos 50
confidence_of (t ∷ []) = pos 70
confidence_of (t ∷ (u ∷ us)) = pos 90

abbrev pub reason_of : List String → String
reason_of [] = "No scaling needed"
reason_of (r ∷ rs) = join "; " (r ∷ rs)

module _ (floats : Floats) where
  pub record PartitionMetrics : Type 0 where
    pub total_partitions : ℤ
    pub total_lag : ℤ
    pub average_lag : floats.F64
    pub max_partition_lag : ℤ
    pub messages_per_second : floats.F64
    pub bytes_per_second : floats.F64
    pub under_replicated_partitions : ℤ

  abbrev pub target_lag : PartitionMetrics → AutoScalingConfig → ℤ
  target_lag metrics autoscaling =
      as_i64 (autoscaling.target_lag_per_partition *ℤ metrics.total_partitions)

  abbrev pub lag_reason : String → PartitionMetrics → AutoScalingConfig → String
  lag_reason level metrics autoscaling = format (
      level
      ∷ " consumer lag: "
      ∷ show_ℤ metrics.total_lag
      ∷ ". Target: "
      ∷ show_ℤ (target_lag metrics autoscaling)
      ∷ [])

  unfoldable pub high_lag : PartitionMetrics → AutoScalingConfig → Draft → Option Draft
  high_lag metrics autoscaling d =
      unless_panic (divide metrics.total_lag (target_lag metrics autoscaling)) (λ ratio.
        let needed = wrap_i32 (max_ℤ ratio (pos 1)) in
        some (
          propose_if (ltb_ℤ d.recommended needed) needed (lag_reason "High" metrics autoscaling)
            "consumer_lag" d))

  unfoldable pub low_lag : PartitionMetrics → AutoScalingConfig → Draft → Draft
  low_lag metrics autoscaling d =
      let needed =
        max_ℤ
          (floats.to_i32 (
            floats.ceil (
              floats.over (floats.of_ℤ metrics.total_lag)
                (floats.of_ℤ (target_lag metrics autoscaling)))))
          (pos 1) in
      propose_if (ltb_ℤ needed d.recommended) needed (lag_reason "Low" metrics autoscaling)
        "consumer_lag" d

  -- What the check of the lag does with the lag per broker.
  unfoldable pub by_lag : ℤ → PartitionMetrics → AutoScalingConfig → Draft → Option Draft
  unfolding high_lag low_lag
  by_lag lag_per_broker metrics autoscaling d =
      if ltb_ℤ (as_i64 (autoscaling.target_lag_per_partition *ℤ pos 2)) lag_per_broker
      then high_lag metrics autoscaling d
      else if ltb_ℤ lag_per_broker (quot autoscaling.target_lag_per_partition (pos 4))
          && ltb_ℤ autoscaling.min_replicas d.recommended
      then some (low_lag metrics autoscaling d)
      else some d

  -- The check of the lag.
  unfoldable pub check_lag : ℤ → PartitionMetrics → AutoScalingConfig → Draft → Option Draft
  unfolding by_lag
  check_lag current metrics autoscaling d =
      if autoscaling.partition_aware && ltb_ℤ (pos 0) metrics.total_lag
      then unless_panic (divide metrics.total_lag current)
          (λ lag_per_broker. by_lag lag_per_broker metrics autoscaling d)
      else some d

  -- The check of the throughput.
  unfoldable pub check_throughput : ℤ → PartitionMetrics → AutoScalingConfig → Draft → Draft
  check_throughput current metrics autoscaling d =
      let mps_per_broker = floats.over metrics.messages_per_second (floats.of_ℤ current) in
      let target_mps = floats.of_ℤ autoscaling.target_messages_per_second in
      let needed =
        floats.to_i32 (floats.ceil (floats.over metrics.messages_per_second target_mps)) in
      propose_if
        (floats.gtb metrics.messages_per_second (floats.literal 0 1)
          && floats.gtb mps_per_broker (floats.times target_mps (floats.literal 3 2))
          && ltb_ℤ d.recommended needed)
        needed
        (format (
          "High throughput: "
          ∷ floats.show_none mps_per_broker
          ∷ " msg/s per broker. Target: "
          ∷ floats.show target_mps
          ∷ []))
        "messages_per_second" d

  -- The check of the distribution of the partitions.
  unfoldable pub check_partitions : ℤ → PartitionMetrics → Draft → Option Draft
  check_partitions current metrics d =
      if ltb_ℤ (pos 0) metrics.total_partitions
      then unless_panic (divide metrics.total_partitions current) (λ partitions_per_broker.
        let min_for_partitions = max_ℤ (quot metrics.total_partitions (pos 100)) (pos 1) in
        some (
          propose_if (ltb_ℤ d.recommended min_for_partitions) min_for_partitions
            (format (
              "High partition count: "
              ∷ show_ℤ metrics.total_partitions
              ∷ ". "
              ∷ show_ℤ partitions_per_broker
              ∷ " partitions per broker"
              ∷ []))
            "partition_count" d))
      else some d

  -- The three checks, in turn, from the replicas of the spec.
  unfoldable pub draft : ℤ → PartitionMetrics → AutoScalingConfig → Option Draft
  draft current metrics autoscaling =
      unless_panic
        (check_lag current metrics autoscaling
          (record { recommended = current; reasons = []; triggering = [] }))
        (λ d. check_partitions current metrics (check_throughput current metrics autoscaling d))

  -- The limits, the confidence and the reason.
  unfoldable pub concluded : String → AutoScalingConfig → ℤ → Draft → ScalingRecommendation
  concluded now autoscaling current d = record {
    recommended_replicas = clamped autoscaling d.recommended;
    current_replicas = current;
    reason = reason_of d.reasons;
    confidence = confidence_of d.triggering;
    triggering_metrics = d.triggering;
    timestamp = now;
  }

  unfoldable pub generate_recommendation :
      String
      → StreamlineCluster
      → PartitionMetrics
      → AutoScalingConfig
      → Option ScalingRecommendation
  unfolding draft concluded
  generate_recommendation now cluster metrics autoscaling =
      let current = cluster.spec.replicas in
      unless_panic (draft current metrics autoscaling)
        (λ d. some (concluded now autoscaling current d))
