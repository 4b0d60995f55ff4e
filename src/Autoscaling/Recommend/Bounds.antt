-- ===== src/Autoscaling/Recommend/Bounds.antt =====
-- What a recommendation is within, and what it is explained by.
use streamline_operator.Base.{
  ◌<◌, String, Bool, true, false, Option, none, some, List, [], ◌∷◌, ◌++◌, ◌≡◌, refl, ◌⊎◌, inl, inr,
  arith, length, ◌&&◌, if◌then◌else◌, ap, subst,
}
use streamline_operator.Base.Int.{ℤ, pos, ◌≤ℤ◌, ltb_ℤ, ◌*ℤ◌, as_i64, quot, max_ℤ}
use streamline_operator.Base.Float.{Floats}
use streamline_operator.Crd.Cluster.{StreamlineCluster}
use streamline_operator.Autoscaling.{AutoScalingConfig}
use streamline_operator.Autoscaling.Recommend.{
  ScalingRecommendation, Draft, PartitionMetrics, propose, propose_if, by_lag, unless_panic,
  clamped, confidence_of, reason_of, high_lag, low_lag, check_lag, check_throughput,
  check_partitions, draft, concluded, generate_recommendation,
}

-- Nothing was proposed, and the replicas are those at the start; or something was.
unfoldable IsExplained : ℤ → Draft → Type 0
IsExplained current d =
    ((d.triggering ≡ []) × (d.reasons ≡ []) × (d.recommended ≡ current)) ⊎ (0 < length d.triggering)

-- A recommendation on those metrics, for that many replicas at the moment.
pub record IsSound (floats : Floats) (metrics : PartitionMetrics floats)
    (autoscaling : AutoScalingConfig) (current : ℤ) (r : ScalingRecommendation) : Type 0 where
  pub at_least : autoscaling.min_replicas ≤ℤ r.recommended_replicas
  pub at_most : r.recommended_replicas ≤ℤ autoscaling.max_replicas
  -- One broker for every full hundred of partitions.
  pub spread :
      (metrics.total_partitions ≤ℤ pos 0)
      ⊎ (quot metrics.total_partitions (pos 100) ≤ℤ r.recommended_replicas)
      ⊎ (r.recommended_replicas ≡ autoscaling.max_replicas)
  pub explained :
      ((r.triggering_metrics ≡ [])
        × (r.recommended_replicas ≡ clamped autoscaling current)
        × (r.reason ≡ "No scaling needed")
        × (r.confidence ≡ pos 50))
      ⊎ ((0 < length r.triggering_metrics) × (pos 70 ≤ℤ r.confidence))

propose-IsExplained :
    (current n : ℤ) (reason trigger : String) (d : Draft)
    → IsExplained current (propose n reason trigger d)
unfolding IsExplained
propose-IsExplained current n reason trigger d = inr (more d.triggering)
  where
    more : (ts : List String) → 0 < length (ts ++ (trigger ∷ []))
    more [] = omega arith
    more (t ∷ ts) = omega arith

propose_if-IsExplained :
    (current : ℤ) (test : Bool) (n : ℤ) (reason trigger : String) (d : Draft)
    → IsExplained current d
    → IsExplained current (propose_if test n reason trigger d)
unfolding propose_if
propose_if-IsExplained current true n reason trigger d h =
    propose-IsExplained current n reason trigger d
propose_if-IsExplained current false n reason trigger d h = h

proposes_enough :
    (q : ℤ) (reason trigger : String) (d : Draft)
    → q
      ≤ℤ (propose_if
          (ltb_ℤ d.recommended (max_ℤ q (pos 1)))
          (max_ℤ q (pos 1))
          reason
          trigger
          d).recommended
unfolding propose_if
proposes_enough q reason trigger d = ground arith

clamped-bounds :
    (autoscaling : AutoScalingConfig) (n : ℤ)
    → autoscaling.min_replicas ≤ℤ autoscaling.max_replicas
    → (autoscaling.min_replicas ≤ℤ clamped autoscaling n)
      × (clamped autoscaling n ≤ℤ autoscaling.max_replicas)
clamped-bounds autoscaling n h = ground arith

clamped-at_least :
    (autoscaling : AutoScalingConfig) (q n : ℤ)
    → q ≤ℤ n
    → (q ≤ℤ clamped autoscaling n) ⊎ (clamped autoscaling n ≡ autoscaling.max_replicas)
clamped-at_least autoscaling q n h = ground arith

confident : (ts : List String) → 0 < length ts → pos 70 ≤ℤ confidence_of ts
confident [] h = elim h [ ]
confident (t ∷ []) h = omega arith
confident (t ∷ (u ∷ us)) h = omega arith

-- The claim holds of the draft, if the computation has not panicked.
abbrev Survives : (Draft → Type 0) → Option Draft → Type 0
Survives P none = Unit {0}
Survives P (some d) = P d

module _ (P : Draft → Type 0) where
  Survives-either :
      (b : Bool) (x y : Option Draft)
      → (b ≡ true → Survives P x)
      → (b ≡ false → Survives P y)
      → Survives P (if b then x else y)
  Survives-either true x y px py = px refl
  Survives-either false x y px py = py refl

  Survives-unless_panic :
      {A : Type 0} (v : Option A) (f : A → Option Draft)
      → ((a : A) → Survives P (f a))
      → Survives P (unless_panic v f)
  unfolding unless_panic
  Survives-unless_panic none f h = tt
  Survives-unless_panic (some a) f h = h a

  Survives-next :
      {Q : Draft → Type 0} (v : Option Draft) (f : Draft → Option Draft)
      → Survives Q v
      → ((d : Draft) → Q d → Survives P (f d))
      → Survives P (unless_panic v f)
  unfolding unless_panic
  Survives-next none f q h = tt
  Survives-next (some d) f q h = h d q

module _ (floats : Floats) (metrics : PartitionMetrics floats) (autoscaling : AutoScalingConfig)
    (current : ℤ) where
  by_lag-IsExplained :
      (per_broker : ℤ) (d : Draft)
      → IsExplained current d
      → Survives (IsExplained current) (by_lag floats per_broker metrics autoscaling d)
  unfolding by_lag high_lag low_lag
  by_lag-IsExplained per_broker d h =
      Survives-either (IsExplained current)
        (ltb_ℤ (as_i64 (autoscaling.target_lag_per_partition *ℤ pos 2)) per_broker) _ _
        (λ high.
          Survives-unless_panic (IsExplained current) _ _
            (λ ratio. propose_if-IsExplained current _ _ _ _ d h))
        (λ not_high.
          Survives-either (IsExplained current)
            (ltb_ℤ per_broker (quot autoscaling.target_lag_per_partition (pos 4))
              && ltb_ℤ autoscaling.min_replicas d.recommended)
            _ _ (λ low. propose_if-IsExplained current _ _ _ _ d h) (λ not_low. h))

  check_lag-IsExplained :
      (d : Draft)
      → IsExplained current d
      → Survives (IsExplained current) (check_lag floats current metrics autoscaling d)
  unfolding check_lag
  check_lag-IsExplained d h =
      Survives-either (IsExplained current)
        (autoscaling.partition_aware && ltb_ℤ (pos 0) metrics.total_lag) _ _
        (λ aware.
          Survives-unless_panic (IsExplained current) _ _
            (λ per_broker. by_lag-IsExplained per_broker d h))
        (λ unaware. h)

  check_throughput-IsExplained :
      (d : Draft)
      → IsExplained current d
      → IsExplained current (check_throughput floats current metrics autoscaling d)
  unfolding check_throughput
  check_throughput-IsExplained d h = propose_if-IsExplained current _ _ _ _ d h

  abbrev IsComplete : Draft → Type 0
  IsComplete d =
      IsExplained current d
      × ((metrics.total_partitions ≤ℤ pos 0)
          ⊎ (quot metrics.total_partitions (pos 100) ≤ℤ d.recommended))

  check_partitions-IsComplete :
      (d : Draft)
      → IsExplained current d
      → Survives IsComplete (check_partitions floats current metrics d)
  unfolding check_partitions
  check_partitions-IsComplete d h =
      Survives-either IsComplete (ltb_ℤ (pos 0) metrics.total_partitions) _ _
        (λ some_partitions. Survives-unless_panic IsComplete _ _ (λ per_broker. (
          propose_if-IsExplained current _ _ _ _ d h,
          inr (proposes_enough (quot metrics.total_partitions (pos 100)) _ _ d),
        )))
        (λ no_partitions. (h, inl (ground (arith, no_partitions))))

  draft-IsComplete : Survives IsComplete (draft floats current metrics autoscaling)
  unfolding draft IsExplained
  draft-IsComplete =
      Survives-next IsComplete _ _
        (check_lag-IsExplained (record { recommended = current; reasons = []; triggering = [] })
          (inl (refl, refl, refl)))
        (λ d h. check_partitions-IsComplete _ (check_throughput-IsExplained d h))

  concluded-IsSound :
      (now : String) (d : Draft)
      → autoscaling.min_replicas ≤ℤ autoscaling.max_replicas
      → IsComplete d
      → IsSound floats metrics autoscaling current (concluded floats now autoscaling current d)
  unfolding concluded IsExplained
  concluded-IsSound now d ordered (explained, spread) =
      let bounds = clamped-bounds autoscaling d.recommended ordered in
      record {
        at_least = bounds.0;
        at_most = bounds.1;
        spread = elim spread [
          | inl none_there ↦ inl none_there
          | inr enough ↦ inr (clamped-at_least autoscaling _ d.recommended enough)
        ];
        explained = elim explained [
          | inl (quiet, silent, same) ↦
              inl
                (quiet, ap (clamped autoscaling) same, ap reason_of silent, ap confidence_of quiet)
          | inr triggered ↦ inr (triggered, confident d.triggering triggered)
        ];
      }

-- A recommendation that is computed, for limits in order, is within the limits; it has a broker for every
-- full hundred of partitions, unless the upper limit forbids it; and where no metric triggered it, it is
-- the present number of replicas brought within the limits, with the reason "No scaling needed" and the
-- confidence 50, and else some metric triggered it and the confidence is 70 or more.
pub recommendation-IsSound :
    (floats : Floats) (now : String) (cluster : StreamlineCluster)
    (metrics : PartitionMetrics floats) (autoscaling : AutoScalingConfig)
    (r : ScalingRecommendation)
    → autoscaling.min_replicas ≤ℤ autoscaling.max_replicas
    → generate_recommendation floats now cluster metrics autoscaling ≡ some r
    → IsSound floats metrics autoscaling cluster.spec.replicas r
unfolding generate_recommendation unless_panic
recommendation-IsSound floats now cluster metrics autoscaling r ordered e =
    from_draft (draft floats cluster.spec.replicas metrics autoscaling)
      (draft-IsComplete floats metrics autoscaling cluster.spec.replicas) e
  where
    from_draft :
        (v : Option Draft)
        → Survives (IsComplete floats metrics autoscaling cluster.spec.replicas) v
        → unless_panic v (λ d. some (concluded floats now autoscaling cluster.spec.replicas d))
          ≡ some r
        → IsSound floats metrics autoscaling cluster.spec.replicas r
    from_draft none c e = cc e
    from_draft (some d) c e =
        subst (IsSound floats metrics autoscaling cluster.spec.replicas) (cc e)
          (concluded-IsSound floats metrics autoscaling cluster.spec.replicas now d ordered c)
