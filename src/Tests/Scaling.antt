-- ===== src/Tests/Scaling.antt =====
-- The theorems on scaling, each at a concrete input.
use streamline_operator.Base.{
  ℕ, ◌*◌, ◌+◌, ◌/◌, true, false, none, some, [], ◌∷◌, ◌≡◌, ◌↔◌, ◌⊎◌, refl, ok, ltb, ◌==◌, arith,
}
use streamline_operator.Base.Int.{ℤ, pos, pos_part, divide}
use streamline_operator.Base.Float.{Floats}
use streamline_operator.Base.Text.{show_ℕ, show_ℤ}
use streamline_operator.Tests.{ready_cluster, idle}
use streamline_operator.ScaleToZero.{
  ScaleToZeroConfig, empty_config, empty_keda, scale_to_zero, patch_replicas, apply_scale_action,
}
use streamline_operator.ScaleToZero.Exact.{
  Readings, IsQuiet, IsCool, IsPermitted, decision, scales_to_zero_iff,
  apply_scale_action-IsPermitted,
}
use streamline_operator.ScaleToZero.Keda.{KedaEnv, reconcile_keda_scaled_object}
use streamline_operator.ScaleToZero.Keda.Settled.{IsWritten, keda_reconciled_iff}
use streamline_operator.Autoscaling
use streamline_operator.Autoscaling.{AutoScalingConfig}
use streamline_operator.Autoscaling.Recommend.{
  PartitionMetrics, ScalingRecommendation, generate_recommendation, draft, check_lag, by_lag,
  high_lag, low_lag, check_throughput, check_partitions, unless_panic, propose_if, concluded,
}
use streamline_operator.Autoscaling.Recommend.Panics.{IsDividedByZero, recommendation_panics_iff}
use streamline_operator.Autoscaling.Recommend.Bounds.{IsSound, recommendation-IsSound}

-- Numbers in thousandths.
abbrev thousandths : Floats
thousandths = record {
  F64 = ℕ;
  literal = λ m n. m * 1000 / n;
  of_ℤ = λ n. pos_part n * 1000;
  eqb = λ a b. a == b;
  gtb = λ a b. ltb b a;
  times = λ a b. a * b / 1000;
  over = λ a b. a * 1000 / b;
  ceil = λ a. (a + 999) / 1000 * 1000;
  to_i32 = λ a. pos (a / 1000);
  show_one = λ a. show_ℕ (a / 1000);
  show_none = λ a. show_ℕ (a / 1000);
  show = λ a. show_ℕ (a / 1000);
}

abbrev serverless : ScaleToZeroConfig
serverless = record empty_config { enabled = true; keda_enabled = true; keda = some empty_keda }

-- Nothing has happened since second 1000.
abbrev silence : Readings thousandths
silence = record {
  messages_per_second = 0;
  bytes_per_second = 0;
  active_connections = 0;
  consumer_lag = pos 0;
  last_activity = 1000;
}

abbrev keda_env : KedaEnv
keda_env = record { answer = λ before c. ok tt; from_value = λ object. ok object }

scales_to_zero_iff_example :
    ((decision thousandths show_ℤ 2000 serverless silence (pos 1) (some 1500)).action
      ≡ scale_to_zero)
    ↔ ((true ≡ true) × IsQuiet thousandths silence 2000 300 × IsCool (some 1500) 2000 120)
scales_to_zero_iff_example =
    scales_to_zero_iff thousandths show_ℤ serverless silence 2000 (omega arith) (omega arith)
      (pos 1) (some 1500)

apply_scale_action-IsPermitted_example :
    ((apply_scale_action
        (λ before c. ok tt)
        ready_cluster
        "shop"
        (decision thousandths show_ℤ 2000 serverless silence (pos 1) none)
        idle).1
      ≡ idle)
    ⊎ ((target : ℤ) × ((apply_scale_action
            (λ before c. ok tt)
            ready_cluster
            "shop"
            (decision thousandths show_ℤ 2000 serverless silence (pos 1) none)
            idle).1.trace
          ≡ patch_replicas "shop" "main" target ∷ [])
        × IsPermitted thousandths serverless silence 2000 (pos 1) none target)
apply_scale_action-IsPermitted_example =
    apply_scale_action-IsPermitted thousandths show_ℤ serverless silence 2000 (omega arith)
      (omega arith) (λ before c. ok tt) ready_cluster "shop" (pos 1) none idle

keda_reconciled_iff_example :
    ((reconcile_keda_scaled_object keda_env ready_cluster "shop" serverless idle).0 ≡ ok tt)
    ↔ ((true ≡ false) ⊎ IsWritten keda_env ready_cluster "shop" serverless idle)
keda_reconciled_iff_example = keda_reconciled_iff keda_env ready_cluster "shop" serverless idle

abbrev lag_aware : AutoScalingConfig
lag_aware = record Autoscaling.empty_config { enabled = true; partition_aware = true }

-- A lag of three times the target on one broker.
abbrev behind : PartitionMetrics thousandths
behind = record {
  total_partitions = pos 1;
  total_lag = pos 30000;
  average_lag = 30000000;
  max_partition_lag = pos 30000;
  messages_per_second = 0;
  bytes_per_second = 0;
  under_replicated_partitions = pos 0;
}

recommended :
    (r : ScalingRecommendation) × (generate_recommendation thousandths "12:00" ready_cluster behind
        lag_aware
      ≡ some r)
unfolding generate_recommendation draft check_lag by_lag high_lag low_lag check_throughput
    check_partitions unless_panic propose_if concluded divide
recommended = (_, refl)

recommendation_panics_iff_example :
    (generate_recommendation thousandths "12:00" ready_cluster behind lag_aware ≡ none)
    ↔ IsDividedByZero thousandths behind lag_aware ready_cluster.spec.replicas
recommendation_panics_iff_example =
    recommendation_panics_iff thousandths behind lag_aware "12:00" ready_cluster

recommendation-IsSound_example :
    IsSound thousandths behind lag_aware ready_cluster.spec.replicas recommended.0
recommendation-IsSound_example =
    recommendation-IsSound thousandths "12:00" ready_cluster behind lag_aware recommended.0
      (omega arith) recommended.1
