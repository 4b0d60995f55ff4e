-- ===== src/Tests/Topics.antt =====
-- The topic controller's theorems, each at a concrete input.
use streamline_operator.Base.{
  Result, length, ℕ, String, false, none, some, List, [], ◌∷◌, ◌≡◌, ◌≢◌, ◌↔◌, refl, ok, str_eq,
  if◌then◌else◌, ◌⊎◌,
}
use streamline_operator.Base.Int.{ℤ, pos}
use streamline_operator.Base.Finalizers.{has}
use streamline_operator.Base.Text.{join}
use streamline_operator.Runtime.{requeue}
use streamline_operator.Runtime.Traces.{All}
use streamline_operator.Crd.Topic.{StreamlineTopic, default_topic_spec}
use streamline_operator.TopicController.Gate.{unsupported_fields}
use streamline_operator.TopicController.Gate.Exact.{AsksForNothingElse, unsupported_fields_iff}
use streamline_operator.TopicController.Sync.{
  Json, TopicServerState, evaluate_sync, in_sync, drift, unverified,
}
use streamline_operator.TopicController.Sync.Exact.{Differs, evaluate_sync_exact}
use streamline_operator.TopicController.Statuses.{
  unsupported_status, pending_status, error_status, ready_status,
}
use streamline_operator.TopicController.Statuses.Stable.{published, statuses_again}
use streamline_operator.TopicController.Calls.{
  TopicCall, TopicEnv, HttpResponse, merge_finalizers, finalizers_of,
}
use streamline_operator.TopicController.Reconcile
use streamline_operator.TopicController.Reconcile.FailClosed.{IsRefusalCall, reconcile_fails_closed}
use streamline_operator.TopicController.Reconcile.Backed.{ReadyIsBacked, ready_only_after_accept}
use streamline_operator.TopicController.Reconcile.Deletion.{awaiting, deletion_removes_finalizer}
use streamline_operator.TopicController.Reconcile.Quiet.{refused_twice_quiet}
use streamline_operator.CloudFixture.{CloudOperatorFixture, validate_fixture}
use streamline_operator.CloudFixture.Accepted.{IsAcceptable, validate_fixture_iff}
use streamline_operator.Tests.{live_meta, ready_cluster, idle, live}

abbrev orders : StreamlineTopic
orders = record { metadata = live_meta; spec = default_topic_spec "main"; status = none }

-- Three replicas: the gate refuses them.
abbrev refused_orders : StreamlineTopic
refused_orders = record orders {
  spec = record (default_topic_spec "main") { replication_factor = pos 3 };
}

-- A parser that reads every body as three partitions on one replica.
abbrev three_partitions : Json
three_partitions = record {
  Value = ℤ;
  from_str = λ body. some (pos 3);
  get = λ root key. if str_eq key "partitions" then some root else none;
  as_i64 = λ v. some v;
}

abbrev created : HttpResponse
created = record { code = 201; shown = "201 Created"; body = "{}" }

abbrev topic_env : TopicEnv
topic_env = record {
  write = λ before c. ok tt;
  cluster = λ before namespace name. ok ready_cluster;
  post = λ before url name partitions. ok created;
  read = λ before url. ok created;
  delete = λ before url. ok created;
  now = λ before. "2025-01-01T00:00:00Z";
  elapsed_ms = λ before. 7;
}

refusal_text : (u : String) × (unsupported_fields refused_orders.spec ≡ u ∷ [])
unfolding unsupported_fields
refusal_text = (_, refl)

ready_only_after_accept_example :
    ReadyIsBacked topic_env (Reconcile.reconcile three_partitions topic_env orders idle).1.trace
ready_only_after_accept_example =
    ready_only_after_accept three_partitions topic_env orders idle refl

refused : unsupported_fields refused_orders.spec ≢ []
unfolding unsupported_fields
refused h = cc

reconcile_fails_closed_example :
    All IsRefusalCall (Reconcile.reconcile three_partitions topic_env refused_orders idle).1.trace
reconcile_fails_closed_example =
    reconcile_fails_closed three_partitions topic_env refused_orders idle refused live refl

abbrev one_reported : TopicServerState
one_reported = record { partitions = some (pos 4); replication_factor = none }

evaluate_sync_exact_example :
    ((evaluate_sync orders.spec one_reported ≡ in_sync one_reported) ↔ (
      (one_reported.partitions ≡ some (pos 3)) × (one_reported.replication_factor ≡ some (pos 1))))
    × (((m : String) × (evaluate_sync orders.spec one_reported ≡ drift m)) ↔ (
        Differs one_reported.partitions (pos 3) ⊎ Differs one_reported.replication_factor (pos 1)))
    × ((evaluate_sync orders.spec one_reported ≡ unverified) ↔ (
        ¬ (Differs one_reported.partitions (pos 3))
        × ¬ (Differs one_reported.replication_factor (pos 1))
        × ((one_reported.partitions ≡ none) ⊎ (one_reported.replication_factor ≡ none))))
evaluate_sync_exact_example = evaluate_sync_exact orders.spec one_reported

unsupported_fields_iff_example :
    (unsupported_fields refused_orders.spec ≡ []) ↔ AsksForNothingElse refused_orders.spec
unsupported_fields_iff_example = unsupported_fields_iff refused_orders.spec

statuses_again_example :
    (unsupported_status "12:00"
        (published orders (unsupported_status "11:00" orders "broken"))
        "broken"
      ≡ unsupported_status "11:00" orders "broken")
    × (pending_status "12:00" (published orders (pending_status "11:00" orders "broken")) "broken"
        ≡ pending_status "11:00" orders "broken")
    × (error_status "12:00" (published orders (error_status "11:00" orders "broken")) "broken"
        ≡ error_status "11:00" orders "broken")
    × (ready_status "12:00"
          (published orders (ready_status "11:00" orders one_reported false))
          one_reported
          false
        ≡ ready_status "11:00" orders one_reported false)
statuses_again_example = statuses_again "11:00" "12:00" orders "broken" one_reported false

deletion_removes_finalizer_example :
    (before : List TopicCall) × (fs : List String) × ((Reconcile.handle_deletion three_partitions
        topic_env orders "shop" idle).1.trace
      ≡ merge_finalizers "shop" "orders" fs ∷ before)
    × ((Reconcile.handle_deletion three_partitions topic_env orders "shop" idle).0
        ≡ awaiting (ok tt))
    × (has "streamline.io/topic-cleanup" fs ≡ false)
    × ((f : String) → f ≢ "streamline.io/topic-cleanup" → has f fs ≡ has f (finalizers_of orders))
deletion_removes_finalizer_example =
    deletion_removes_finalizer three_partitions topic_env orders "shop" idle

refused_twice_quiet_example :
    ((Reconcile.reconcile three_partitions topic_env
        (published refused_orders
          (unsupported_status "11:00" refused_orders (join "; " (refusal_text.0 ∷ []))))
        idle).1.trace
      ≡ [])
    × ((Reconcile.reconcile three_partitions topic_env
          (published refused_orders
            (unsupported_status "11:00" refused_orders (join "; " (refusal_text.0 ∷ []))))
          idle).0
        ≡ ok (requeue 300))
refused_twice_quiet_example =
    refused_twice_quiet three_partitions topic_env refused_orders "11:00" refusal_text.0 [] idle
      live refl refusal_text.1

-- One cluster and one topic of the default shape.
abbrev one_of_each : CloudOperatorFixture
one_of_each = record {
  streamline_clusters = ("small", ready_cluster) ∷ [];
  streamline_topics = ("small", orders) ∷ [];
}

validate_fixture_iff_example :
    (validate_fixture (λ contents. ok one_of_each) (λ path. ok "{}") "cloud.json" ≡ ok (1, 1)) ↔ (
      (contents : String) × (fixture : CloudOperatorFixture) × (◌≡◌ {A = Result String String}
        (ok "{}")
        (ok contents))
      × (◌≡◌ {A = Result String CloudOperatorFixture} (ok one_of_each) (ok fixture))
      × IsAcceptable fixture
      × (◌≡◌ {A = ℕ × ℕ}
          (length fixture.streamline_clusters, length fixture.streamline_topics)
          (1, 1)))
validate_fixture_iff_example =
    validate_fixture_iff (λ contents. ok one_of_each) (λ path. ok "{}") "cloud.json" (1, 1)
