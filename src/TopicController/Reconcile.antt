-- ===== src/TopicController/Reconcile.antt =====
-- The reconciler of src/controllers/topic.rs, from `reconcile` down, over the calls that it makes.
pub mod Deletion
pub mod FailClosed
pub mod Quiet
pub mod Backed
use streamline_operator.Base.{
  ℕ, String, Bool, true, false, not, ◌&&◌, ◌||◌, Option, none, some, List, [], ◌∷◌, Result, ok, err,
  any, filter, is_empty, is_some, unwrap_or, str_eq, leb, ltb, ◌==◌, if◌then◌else◌,
}
use streamline_operator.Base.Int.{ℤ, pos, ltb_ℤ}
use streamline_operator.Base.Finalizers.{has, without}
use streamline_operator.Base.Text.{format, join, show_ℤ}
use streamline_operator.Error.{OperatorError, internal, to_string}
use streamline_operator.Metrics.{inc_reconcile, inc_success, inc_error, observe_duration_ms}
use streamline_operator.Conditions.{topic_finalizer}
use streamline_operator.Crd.Meta.{is_deleting}
use streamline_operator.Crd.Cluster.{StreamlineCluster, ClusterStatus}
use streamline_operator.Crd.Topic.{StreamlineTopic, TopicStatus, TopicStatus-discrete}
use streamline_operator.Runtime.{
  KubeError, Action, catch, with_error_policy, requeue, await_change, World, Exec, pure, fail, call,
  meter, kube, timed, now_at, ◌>>=◌, ◌>>◌,
}
use streamline_operator.Status.{is_published}
use streamline_operator.Controllers.{error_policy_backoff}
use streamline_operator.TopicController.Gate.{unsupported_fields}
use streamline_operator.TopicController.Sync.{
  Json, TopicServerState, unreported, reports_nothing, parse_topic_state, evaluate_sync,
  SyncOutcome, in_sync, drift, unverified,
}
use streamline_operator.TopicController.Statuses.{
  unsupported_status, ready_status, pending_status, error_status,
}
use streamline_operator.TopicController.Calls.{
  TopicCall, apply_finalizers, merge_finalizers, get_cluster, delete_topic, patch_status, TopicEnv,
  HttpResponse, http_endpoint, topic_url, finalizers_of, namespace_of, is_ready_status,
}
use streamline_operator.TopicController.Topics.{create_or_update_topic}

module _ (json : Json) (env : TopicEnv) where
  unfoldable pub write : TopicCall → Exec TopicCall (Unit {0})
  write c = kube c (λ before. env.write before c)

  unfoldable pub ensure_finalizer : StreamlineTopic → String → Exec TopicCall (Unit {0})
  unfolding write
  ensure_finalizer topic namespace =
      if has topic_finalizer (finalizers_of topic)
      then pure tt
      else write (apply_finalizers namespace topic.metadata.name_any (topic_finalizer ∷ []))

  unfoldable pub patch_status_if_changed :
      StreamlineTopic → String → TopicStatus → Exec TopicCall (Unit {0})
  unfolding write
  patch_status_if_changed topic namespace status =
      if is_published TopicStatus-discrete topic.status status
      then pure tt
      else write (patch_status namespace topic.metadata.name_any status)

  -- `update_status_unsupported`, `…_pending`, `…_error`, `…_ready`
  unfoldable pub update_status :
      StreamlineTopic
      → String
      → (String → StreamlineTopic → TopicStatus)
      → Exec TopicCall (Unit {0})
  unfolding patch_status_if_changed
  update_status topic namespace build = do
    now ← now_at env.now
    patch_status_if_changed topic namespace (build now topic)

  -- The best-effort delete on the server, whose failure is only logged.
  unfoldable pub delete_on_server :
      StreamlineTopic → String → Result KubeError StreamlineCluster → Exec TopicCall (Unit {0})
  delete_on_server topic namespace (err e) = pure tt
  delete_on_server topic namespace (ok cluster) =
      let endpoint = http_endpoint cluster.metadata.name_any namespace cluster.spec.http_port in
      let url = topic_url endpoint topic.metadata.name_any in
      do call (delete_topic url) (λ before. env.delete before url); pure tt

  unfoldable pub handle_deletion : StreamlineTopic → String → Exec TopicCall Action
  unfolding delete_on_server write
  handle_deletion topic namespace = do
    found ←
        call (get_cluster namespace topic.spec.cluster_ref)
          (λ before. env.cluster before namespace topic.spec.cluster_ref)
    delete_on_server topic namespace found
    write (
        merge_finalizers namespace topic.metadata.name_any
          (without topic_finalizer (finalizers_of topic)))
    pure await_change

  -- `update_status_from_server`
  unfoldable pub publish_outcome :
      StreamlineTopic → String → TopicServerState → SyncOutcome → Exec TopicCall (Unit {0})
  unfolding update_status
  publish_outcome topic namespace state (in_sync reported) =
      update_status topic namespace (λ now t. ready_status now t reported true)
  publish_outcome topic namespace state unverified =
      update_status topic namespace (λ now t. ready_status now t state false)
  publish_outcome topic namespace state (drift message) =
      update_status topic namespace (λ now t. error_status now t message)

  -- The two ways on from `create_or_update_topic`: its failure is published, not returned.
  unfoldable pub after_topic :
      StreamlineTopic → String → Result OperatorError TopicServerState → Exec TopicCall Action
  unfolding publish_outcome
  after_topic topic namespace (ok state) = do
    publish_outcome topic namespace state (evaluate_sync topic.spec state)
    meter inc_success
    pure (requeue 60)
  after_topic topic namespace (err e) = do
    update_status topic namespace (λ now t. error_status now t (to_string e))
    pure (requeue 30)

  unfoldable pub with_ready_cluster :
      StreamlineTopic → String → StreamlineCluster → Exec TopicCall Action
  unfolding after_topic
  with_ready_cluster topic namespace cluster = do
    outcome ← catch (create_or_update_topic json env topic cluster)
    after_topic topic namespace outcome

  unfoldable pub with_cluster :
      StreamlineTopic → String → Result KubeError StreamlineCluster → Exec TopicCall Action
  unfolding with_ready_cluster format
  with_cluster topic namespace (err e) = do
    update_status topic namespace (λ now t.
        error_status now t (format ("Cluster " ∷ topic.spec.cluster_ref ∷ " not found" ∷ [])))
    pure (requeue 30)
  with_cluster topic namespace (ok cluster) =
      if is_ready_status cluster.status then with_ready_cluster topic namespace cluster else do
        update_status topic namespace
            (λ now t. pending_status now t "Waiting for cluster to be ready")
        pure (requeue 10)

  -- The gate, and what stands behind it.
  unfoldable pub gated : StreamlineTopic → String → List String → Exec TopicCall Action
  unfolding with_cluster
  gated topic namespace (u ∷ us) = do
    update_status topic namespace (λ now t. unsupported_status now t (join "; " (u ∷ us)))
    meter (inc_error "topic")
    pure (requeue 300)
  gated topic namespace [] = do
    found ←
        call (get_cluster namespace topic.spec.cluster_ref)
          (λ before. env.cluster before namespace topic.spec.cluster_ref)
    with_cluster topic namespace found

  unfoldable pub reconcile_live : StreamlineTopic → String → Exec TopicCall Action
  unfolding ensure_finalizer gated
  reconcile_live topic namespace = do
    ensure_finalizer topic namespace
    gated topic namespace (unsupported_fields topic.spec)

  unfoldable pub reconcile : StreamlineTopic → Exec TopicCall Action
  unfolding reconcile_live handle_deletion
  reconcile topic =
      let namespace = namespace_of topic.metadata.namespace in
      do
        meter (inc_reconcile "topic")
        timed env.elapsed_ms (
            if is_deleting topic.metadata
            then handle_deletion topic namespace
            else reconcile_live topic namespace)

  -- One pass of the controller that `run` starts.
  unfoldable pub run_once : StreamlineTopic → World TopicCall → Action × World TopicCall
  unfolding reconcile
  run_once topic = with_error_policy (inc_error "topic") error_policy_backoff (reconcile topic)
