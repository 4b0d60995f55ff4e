-- ===== src/Tests.antt =====
-- Concrete inputs for the theorems that have conditions or parameters.
pub mod Topics
pub mod Clusters
pub mod Process
pub mod Users
pub mod Hub
pub mod Scaling
pub mod Replicas
pub mod Texts
use streamline_operator.Base.{
  ℕ, String, Bool, true, false, Option, none, some, List, [], ◌∷◌, ◌++◌, ◌≡◌, ◌≢◌, ◌↔◌, ◌<◌, refl,
  arith, Result, ok, err, inl, inr, str_eq, if◌then◌else◌, ◌⊎◌,
}
use streamline_operator.Base.Int.{ℤ, pos, negsuc}
use streamline_operator.Base.Finalizers.{has}
use streamline_operator.Base.Text.{is_blank, join}
use streamline_operator.Metrics.{DurationHistogram, observe, new_histogram, new_metrics, is_leader}
use streamline_operator.Metrics.Histogram.{
  IsConsistent, new_histogram-IsConsistent, observe-IsConsistent,
}
use streamline_operator.Conditions.{ConditionFields, build_condition, set_all}
use streamline_operator.Conditions.Stable.{set_all-set_all}
use streamline_operator.Runtime.{KubeError, World, Action, requeue}
use streamline_operator.Runtime.Traces.{All}
use streamline_operator.Crd.Meta.{ObjectMeta, is_deleting}
use streamline_operator.Crd.Env.{EnvVar, EnvVarRef, resolve_source}
use streamline_operator.Crd.Env.Shapes.{Resolves, resolve_source_iff}
use streamline_operator.Crd.Cluster.{
  StreamlineCluster, ClusterSpec, ClusterStatus, ClusterTls, default_spec, running,
}
use streamline_operator.Crd.Topic.{StreamlineTopic, TopicSpec, default_topic_spec}
use streamline_operator.Validate.{validate}
use streamline_operator.Validate.Exact.{IsAdmissible, validate_iff}
use streamline_operator.TopicController.Gate.{unsupported_fields}
use streamline_operator.TopicController.Gate.Exact.{AsksForNothingElse, unsupported_fields_iff}
use streamline_operator.TopicController.Sync.{
  Json, TopicServerState, evaluate_sync, in_sync, drift, unverified,
}
use streamline_operator.TopicController.Sync.Exact.{Differs, evaluate_sync_exact}
use streamline_operator.TopicController.Statuses.{
  unsupported_status, pending_status, error_status, ready_status,
}
use streamline_operator.TopicController.Statuses.Stable.{published, statuses_again}
use streamline_operator.TopicController.Calls.{
  TopicCall, TopicEnv, HttpResponse, merge_finalizers, finalizers_of,
}
use streamline_operator.TopicController.Reconcile
use streamline_operator.TopicController.Reconcile.FailClosed.{IsRefusalCall, reconcile_fails_closed}
use streamline_operator.TopicController.Reconcile.Backed.{ReadyIsBacked, ready_only_after_accept}
use streamline_operator.TopicController.Reconcile.Deletion.{awaiting, deletion_removes_finalizer}
use streamline_operator.TopicController.Reconcile.Quiet.{refused_twice_quiet}

abbrev pub live_meta : ObjectMeta
live_meta = record {
  name_any = "orders";
  namespace = some "shop";
  uid = some "u-1";
  deletion_timestamp = none;
  finalizers = some ("streamline.io/topic-cleanup" ∷ "example.com/audit" ∷ []);
  generation = some (pos 1);
}

abbrev pub ready_cluster : StreamlineCluster
ready_cluster = record {
  metadata = record live_meta { name_any = "main" };
  spec = default_spec;
  status = some (record {
    phase = running;
    ready_replicas = pos 1;
    replicas = pos 1;
    leader_id = none;
    broker_endpoints = "main-0.main-headless.shop.svc:9092" ∷ [];
    conditions = [];
    observed_generation = none;
    last_updated = none;
  });
}

abbrev pub idle : {C : Type 0} → World C
idle = record { trace = []; metrics = new_metrics }

pub live : is_deleting live_meta ≡ false
unfolding is_deleting
live = refl
