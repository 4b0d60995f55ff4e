-- ===== src/Autoscaling/Recommend/Panics.antt =====
-- When the computation of a recommendation panics.
use streamline_operator.Base.{
  String, true, Option, none, some, [], ◌≡◌, refl, ◌↔◌, ◌⊎◌, inl, inr, arith,
}
use streamline_operator.Base.Int.{ℤ, pos, ◌<ℤ◌, ◌*ℤ◌, as_i64, quot, divide, eqb_ℤ_iff}
use streamline_operator.Base.Float.{Floats}
use streamline_operator.Crd.Cluster.{StreamlineCluster}
use streamline_operator.Autoscaling.{AutoScalingConfig}
use streamline_operator.Autoscaling.Recommend.{
  Draft, PartitionMetrics, unless_panic, target_lag, high_lag, by_lag, check_lag, check_throughput,
  concluded, check_partitions, draft, generate_recommendation,
}

divide_iff : (a b : ℤ) → (divide a b ≡ none) ↔ (b ≡ pos 0)
unfolding divide
divide_iff a b = ground (arith, eqb_ℤ_iff b (pos 0))

divided : (a b q : ℤ) → divide a b ≡ some q → q ≡ quot a b
unfolding divide
divided a b q = ground arith

module _ (floats : Floats) (metrics : PartitionMetrics floats)
    (autoscaling : AutoScalingConfig) where
  -- The divisions by zero that the metrics and the configuration lead to.
  pub data IsDividedByZero (current : ℤ) : Type 0 where
    lag_per_broker :
        current ≡ pos 0
        → autoscaling.partition_aware ≡ true
        → pos 0 <ℤ metrics.total_lag
        → IsDividedByZero current
    partitions_per_broker :
        current ≡ pos 0 → pos 0 <ℤ metrics.total_partitions → IsDividedByZero current
    lag_over_target :
        autoscaling.partition_aware ≡ true
        → pos 0 <ℤ metrics.total_lag
        → as_i64 (autoscaling.target_lag_per_partition *ℤ pos 2) <ℤ quot metrics.total_lag current
        → target_lag floats metrics autoscaling ≡ pos 0
        → IsDividedByZero current

  high_lag_iff :
      (d : Draft)
      → (high_lag floats metrics autoscaling d ≡ none)
        ↔ (target_lag floats metrics autoscaling ≡ pos 0)
  unfolding high_lag unless_panic
  high_lag_iff d =
      ground (arith, divide_iff metrics.total_lag (target_lag floats metrics autoscaling))

  check_partitions_iff :
      (current : ℤ) (d : Draft)
      → (check_partitions floats current metrics d ≡ none)
        ↔ ((current ≡ pos 0) × (pos 0 <ℤ metrics.total_partitions))
  unfolding check_partitions unless_panic
  check_partitions_iff current d = ground (arith, divide_iff metrics.total_partitions current)

  by_lag_iff :
      (per_broker : ℤ) (d : Draft)
      → (by_lag floats per_broker metrics autoscaling d ≡ none) ↔ (
          (as_i64 (autoscaling.target_lag_per_partition *ℤ pos 2) <ℤ per_broker)
          × (target_lag floats metrics autoscaling ≡ pos 0))
  unfolding by_lag
  by_lag_iff per_broker d = ground (arith, high_lag_iff d)

  divided_iff :
      (current : ℤ) (d : Draft) (v : Option ℤ)
      → divide metrics.total_lag current ≡ v
      → (unless_panic v (λ per_broker. by_lag floats per_broker metrics autoscaling d) ≡ none) ↔ (
          (current ≡ pos 0)
          ⊎ ((as_i64 (autoscaling.target_lag_per_partition *ℤ pos 2)
                <ℤ quot metrics.total_lag current)
              × (target_lag floats metrics autoscaling ≡ pos 0)))
  unfolding unless_panic
  divided_iff current d none e = (λ h. inl ((divide_iff metrics.total_lag current).0 e), λ h. refl)
  divided_iff current d (some q) e =
      let quotient = divided metrics.total_lag current q e in
      let lag_iff = by_lag_iff (quot metrics.total_lag current) d in
      (
        λ h. inr (lag_iff.0 (rw⁻¹ quotient h)),
        λ h. elim h [
          | inl zero ↦ absurd (cc ((divide_iff metrics.total_lag current).1 zero, e))
          | inr both ↦ rw quotient (lag_iff.1 both)
        ],
      )

  check_lag_iff :
      (current : ℤ) (d : Draft)
      → (check_lag floats current metrics autoscaling d ≡ none) ↔ (
          (autoscaling.partition_aware ≡ true)
          × (pos 0 <ℤ metrics.total_lag)
          × ((current ≡ pos 0)
              ⊎ ((as_i64 (autoscaling.target_lag_per_partition *ℤ pos 2)
                    <ℤ quot metrics.total_lag current)
                  × (target_lag floats metrics autoscaling ≡ pos 0))))
  unfolding check_lag
  check_lag_iff current d =
      let after = divided_iff current d (divide metrics.total_lag current) refl in
      ground (arith, after)

  checked_iff :
      (current : ℤ) (d : Draft) (v : Option Draft)
      → check_lag floats current metrics autoscaling d ≡ v
      → (unless_panic v (λ e.
            check_partitions floats current metrics
              (check_throughput floats current metrics autoscaling e))
          ≡ none)
        ↔ IsDividedByZero current
  unfolding unless_panic
  checked_iff current d none e =
      let (aware, lag, zero) = (check_lag_iff current d).0 e in
      (
        λ h. elim zero [
          | inl no_brokers ↦ lag_per_broker no_brokers aware lag
          | inr (high, no_target) ↦ lag_over_target aware lag high no_target
        ],
        λ h. refl,
      )
  checked_iff current d (some c) e =
      let thrown = check_throughput floats current metrics autoscaling c in
      let lag_iff = check_lag_iff current d in
      (
        λ h.
            let (no_brokers, partitions) = (check_partitions_iff current thrown).0 h in
            partitions_per_broker no_brokers partitions,
        λ h. elim h [
          | lag_per_broker no_brokers aware lag ↦
              absurd (cc (lag_iff.1 (aware, lag, inl no_brokers), e))
          | partitions_per_broker no_brokers partitions ↦
              (check_partitions_iff current thrown).1 (no_brokers, partitions)
          | lag_over_target aware lag high no_target ↦
              absurd (cc (lag_iff.1 (aware, lag, inr (high, no_target)), e))
        ],
      )

  concluded_iff :
      (now : String) (current : ℤ) (v : Option Draft)
      → ((v ≡ none) ↔ IsDividedByZero current)
      → (unless_panic v (λ d. some (concluded floats now autoscaling current d)) ≡ none)
        ↔ IsDividedByZero current
  unfolding unless_panic
  concluded_iff now current none h = (λ e. h.0 refl, λ z. refl)
  concluded_iff now current (some d) h = (λ e. cc, λ z. cc (h.1 z))

  -- A recommendation is computed without a panic unless the code divides by zero, which it does exactly
  -- where the spec asks for no brokers while the metrics show partitions, where it asks for no brokers
  -- while the metrics show a lag and the configuration is partition aware, and where such a configuration
  -- is given a lag whose share of a broker is over twice the target while the target of all partitions
  -- together is zero.
  pub recommendation_panics_iff :
      (now : String) (cluster : StreamlineCluster)
      → (generate_recommendation floats now cluster metrics autoscaling ≡ none)
        ↔ IsDividedByZero cluster.spec.replicas
  unfolding generate_recommendation draft
  recommendation_panics_iff now cluster =
      let current = cluster.spec.replicas in
      concluded_iff now current (draft floats current metrics autoscaling) (
        checked_iff current (record { recommended = current; reasons = []; triggering = [] }) _
          refl)
