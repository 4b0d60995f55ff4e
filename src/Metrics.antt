-- ===== src/Metrics.antt =====
-- src/metrics.rs: the process-wide counters, the leadership gauge and the duration histogram. The
-- counters are u64 and wrap, as `fetch_add` does; so do the sums of the histogram, which a release
-- build does not check.
pub mod Histogram
pub mod Render
use streamline_operator.Base.{
  ℕ, zero, suc, ◌+◌, ◌%◌, ◌^◌, String, Bool, true, false, List, [], ◌∷◌, leb, ◌==◌, str_eq,
  if◌then◌else◌,
}

abbrev pub u64 : ℕ → ℕ
u64 n = n % 2 ^ 64

-- `DURATION_BUCKETS_MS`
abbrev pub duration_buckets_ms : List ℕ
duration_buckets_ms = 5 ∷ 10 ∷ 25 ∷ 50 ∷ 100 ∷ 250 ∷ 500 ∷ 1000 ∷ 2500 ∷ 5000 ∷ 10000 ∷ []

-- `buckets` has one entry more than there are boundaries: the last counts what lies above them all.
pub record DurationHistogram : Type 0 where
  pub buckets : List ℕ
  pub sum : ℕ
  pub count : ℕ

zeros : {A : Type 0} → List A → List ℕ
zeros [] = 0 ∷ []
zeros (b ∷ bs) = 0 ∷ zeros bs

unfoldable pub new_histogram : DurationHistogram
unfolding zeros
new_histogram = record { buckets = zeros duration_buckets_ms; sum = 0; count = 0 }

-- The loop of `observe`: the first bucket whose boundary is not below the value, else the last one.
abbrev pub bump_last : List ℕ → List ℕ
bump_last [] = []
bump_last (n ∷ []) = u64 (n + 1) ∷ []
bump_last (n ∷ (m ∷ ms)) = n ∷ bump_last (m ∷ ms)

unfoldable pub bump_bucket : List ℕ → List ℕ → ℕ → List ℕ
bump_bucket [] buckets value = bump_last buckets
bump_bucket (b ∷ bs) [] value = []
bump_bucket (b ∷ bs) (n ∷ ns) value =
    let later = bump_bucket bs ns value in if leb value b then u64 (n + 1) ∷ ns else n ∷ later

unfoldable pub observe : DurationHistogram → ℕ → DurationHistogram
unfolding bump_bucket
observe h value_ms = record {
  buckets = bump_bucket duration_buckets_ms h.buckets value_ms;
  sum = u64 (h.sum + value_ms);
  count = u64 (h.count + 1);
}

pub record OperatorMetrics : Type 0 where
  pub reconcile_total : ℕ
  pub reconcile_success : ℕ
  pub reconcile_errors : ℕ
  pub reconcile_cluster_total : ℕ
  pub reconcile_topic_total : ℕ
  pub reconcile_user_total : ℕ
  pub reconcile_cluster_errors : ℕ
  pub reconcile_topic_errors : ℕ
  pub reconcile_user_errors : ℕ
  pub leader_transitions : ℕ
  pub leader : ℕ
  pub duration_buckets : DurationHistogram

unfoldable pub new_metrics : OperatorMetrics
unfolding new_histogram
new_metrics = record {
  reconcile_total = 0;
  reconcile_success = 0;
  reconcile_errors = 0;
  reconcile_cluster_total = 0;
  reconcile_topic_total = 0;
  reconcile_user_total = 0;
  reconcile_cluster_errors = 0;
  reconcile_topic_errors = 0;
  reconcile_user_errors = 0;
  leader_transitions = 0;
  leader = 0;
  duration_buckets = new_histogram;
}

unfoldable pub inc_reconcile : String → OperatorMetrics → OperatorMetrics
inc_reconcile resource m =
    let t = record m { reconcile_total = u64 (m.reconcile_total + 1) } in
    if str_eq resource "cluster"
    then record t { reconcile_cluster_total = u64 (m.reconcile_cluster_total + 1) }
    else if str_eq resource "topic"
    then record t { reconcile_topic_total = u64 (m.reconcile_topic_total + 1) }
    else if str_eq resource "user"
    then record t { reconcile_user_total = u64 (m.reconcile_user_total + 1) }
    else t

unfoldable pub inc_success : OperatorMetrics → OperatorMetrics
inc_success m = record m { reconcile_success = u64 (m.reconcile_success + 1) }

unfoldable pub inc_error : String → OperatorMetrics → OperatorMetrics
inc_error resource m =
    let t = record m { reconcile_errors = u64 (m.reconcile_errors + 1) } in
    if str_eq resource "cluster"
    then record t { reconcile_cluster_errors = u64 (m.reconcile_cluster_errors + 1) }
    else if str_eq resource "topic"
    then record t { reconcile_topic_errors = u64 (m.reconcile_topic_errors + 1) }
    else if str_eq resource "user"
    then record t { reconcile_user_errors = u64 (m.reconcile_user_errors + 1) }
    else t

unfoldable pub inc_leader_transition : OperatorMetrics → OperatorMetrics
inc_leader_transition m = record m { leader_transitions = u64 (m.leader_transitions + 1) }

unfoldable pub set_leader : Bool → OperatorMetrics → OperatorMetrics
set_leader true m = record m { leader = 1 }
set_leader false m = record m { leader = 0 }

unfoldable pub is_leader : OperatorMetrics → Bool
is_leader m = m.leader == 1

unfoldable pub observe_duration_ms : ℕ → OperatorMetrics → OperatorMetrics
unfolding observe
observe_duration_ms ms m = record m { duration_buckets = observe m.duration_buckets ms }
