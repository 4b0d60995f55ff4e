-- ===== src/Metrics/Render.antt =====
-- The text of `/metrics` (`render` of src/metrics.rs) in the exposition format of Prometheus.
pub mod Exposition
use streamline_operator.Base.{ℕ, ◌+◌, String, List, [], ◌∷◌, map}
use streamline_operator.Base.Text.{format, join, show_ℕ}
use streamline_operator.Metrics.{u64, DurationHistogram, duration_buckets_ms, OperatorMetrics}

-- `key="value"`
abbrev label : String × String → String
label (key, value) = format (key ∷ "=\"" ∷ value ∷ "\"" ∷ [])

abbrev braced : List (String × String) → String
braced [] = ""
braced (l ∷ ls) = format ("{" ∷ join "," (map label (l ∷ ls)) ∷ "}" ∷ [])

-- What the source appends to its output.
unfoldable pub push_counter : String → List (String × String) → ℕ → String
push_counter name labels value = format (name ∷ braced labels ∷ " " ∷ show_ℕ value ∷ "\n" ∷ [])

-- The counters and the gauge.
unfoldable pub render_counters : OperatorMetrics → String
unfolding push_counter
render_counters m = format (
    "# HELP streamline_operator_reconcile_total Total reconciliation attempts\n"
    ∷ "# TYPE streamline_operator_reconcile_total counter\n"
    ∷ push_counter "streamline_operator_reconcile_total" [] m.reconcile_total
    ∷ "# HELP streamline_operator_reconcile_success_total Successful reconciliations\n"
    ∷ "# TYPE streamline_operator_reconcile_success_total counter\n"
    ∷ push_counter "streamline_operator_reconcile_success_total" [] m.reconcile_success
    ∷ "# HELP streamline_operator_reconcile_errors_total Failed reconciliations\n"
    ∷ "# TYPE streamline_operator_reconcile_errors_total counter\n"
    ∷ push_counter "streamline_operator_reconcile_errors_total" [] m.reconcile_errors
    ∷ "# HELP streamline_operator_reconcile_by_resource_total Reconciliations per resource type\n"
    ∷ "# TYPE streamline_operator_reconcile_by_resource_total counter\n"
    ∷ push_counter "streamline_operator_reconcile_by_resource_total" (("resource", "cluster") ∷ [])
        m.reconcile_cluster_total
    ∷ push_counter "streamline_operator_reconcile_by_resource_total" (("resource", "topic") ∷ [])
        m.reconcile_topic_total
    ∷ push_counter "streamline_operator_reconcile_by_resource_total" (("resource", "user") ∷ [])
        m.reconcile_user_total
    ∷ "# HELP streamline_operator_reconcile_errors_by_resource_total Errors per resource type\n"
    ∷ "# TYPE streamline_operator_reconcile_errors_by_resource_total counter\n"
    ∷ push_counter "streamline_operator_reconcile_errors_by_resource_total"
        (("resource", "cluster") ∷ []) m.reconcile_cluster_errors
    ∷ push_counter "streamline_operator_reconcile_errors_by_resource_total"
        (("resource", "topic") ∷ []) m.reconcile_topic_errors
    ∷ push_counter "streamline_operator_reconcile_errors_by_resource_total"
        (("resource", "user") ∷ []) m.reconcile_user_errors
    ∷ "# HELP streamline_operator_leader_transitions_total Leader election transitions\n"
    ∷ "# TYPE streamline_operator_leader_transitions_total counter\n"
    ∷ push_counter "streamline_operator_leader_transitions_total" [] m.leader_transitions
    ∷ "# HELP streamline_operator_leader 1 if this replica holds the leader Lease, else 0\n"
    ∷ "# TYPE streamline_operator_leader gauge\n"
    ∷ push_counter "streamline_operator_leader" [] m.leader
    ∷ [])

abbrev pub bucket_line : String → ℕ → String
bucket_line le cumulative = format (
    "streamline_operator_reconcile_duration_ms_bucket{le=\""
    ∷ le
    ∷ "\"} "
    ∷ show_ℕ cumulative
    ∷ "\n"
    ∷ [])

-- The lines of the buckets, with the running sum. A histogram has one bucket more than there are
-- boundaries, so that no index is out of range.
unfoldable pub bucket_lines : ℕ → List ℕ → List ℕ → List String
bucket_lines cumulative boundaries [] = []
bucket_lines cumulative [] (n ∷ ns) = bucket_line "+Inf" (u64 (cumulative + n)) ∷ []
bucket_lines cumulative (b ∷ bs) (n ∷ ns) =
    bucket_line (show_ℕ b) (u64 (cumulative + n)) ∷ bucket_lines (u64 (cumulative + n)) bs ns

abbrev pub histogram_header : String
histogram_header = format (
    "# HELP streamline_operator_reconcile_duration_ms Reconciliation duration in milliseconds\n"
    ∷ "# TYPE streamline_operator_reconcile_duration_ms histogram\n" ∷ [])

abbrev pub totals : ℕ → ℕ → String
totals sum count = format (
    "streamline_operator_reconcile_duration_ms_sum "
    ∷ show_ℕ sum
    ∷ "\nstreamline_operator_reconcile_duration_ms_count "
    ∷ show_ℕ count
    ∷ "\n"
    ∷ [])

-- The histogram is read under its lock, which is never poisoned: nothing that is done under it panics in
-- a release build.
unfoldable pub render_histogram : DurationHistogram → String
unfolding bucket_lines
render_histogram h = format (
    histogram_header
    ∷ format (bucket_lines 0 duration_buckets_ms h.buckets)
    ∷ totals h.sum h.count
    ∷ [])

unfoldable pub render : OperatorMetrics → String
unfolding render_counters render_histogram
render m = format (render_counters m ∷ render_histogram m.duration_buckets ∷ [])
