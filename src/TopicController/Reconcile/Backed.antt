-- ===== src/TopicController/Reconcile/Backed.antt =====
-- A topic is called ready only after the Streamline server has taken it.
use streamline_operator.Base.{
  ℕ, String, true, false, List, [], ◌∷◌, ◌≡◌, refl, ◌⊎◌, inl, inr, Result, ok, err, arith,
  Bool-cases,
}
use streamline_operator.Error.{OperatorError, to_string}
use streamline_operator.Runtime.{
  KubeError, requeue, await_change, World, Exec, pure, fail, call, kube, catch, now_at, ◌>>=◌,
}
use streamline_operator.Runtime.Keeps.{
  Keeps, Keeps-pure, continue-keeps, Keeps-bind, Keeps-if, Keeps-timed, Keeps-meter, Keeps-call,
  Keeps-kube, keeps_rules,
}
use streamline_operator.Base.Finalizers.{has}
use streamline_operator.Conditions.{topic_finalizer}
use streamline_operator.Crd.Cluster.{StreamlineCluster}
use streamline_operator.Crd.Topic.{StreamlineTopic, TopicStatus, TopicStatus-discrete}
use streamline_operator.TopicController.Statuses.{
  ready_status, error_status, pending_status, unsupported_status,
}
use streamline_operator.TopicController.Statuses.Stable.{
  error-not_ready, pending-not_ready, unsupported-not_ready,
}
use streamline_operator.Base.Text.{join, format}
use streamline_operator.Status.{is_published}
use streamline_operator.TopicController.Gate.{unsupported_fields}
use streamline_operator.TopicController.Sync.{
  evaluate_sync, parse_topic_state, reports_nothing, Json, TopicServerState, SyncOutcome, in_sync,
  drift, unverified,
}
use streamline_operator.TopicController.Calls.{
  TopicCall, TopicEnv, HttpResponse, is_success, apply_finalizers, post_topic, patch_status,
  namespace_of, finalizers_of,
}
use streamline_operator.TopicController.Topics.{
  create_or_update_topic, after_post, is_refused, fetch_topic_state,
}
use streamline_operator.TopicController.Reconcile.{
  ensure_finalizer, write, delete_on_server, handle_deletion, update_status, publish_outcome,
  after_topic, with_ready_cluster, with_cluster, gated, reconcile_live, reconcile,
}

-- The server answered with a success, or with a conflict: the topic is there.
abbrev pub IsAccepted : Result String HttpResponse → Type 0
IsAccepted (err e) = ⊥
IsAccepted (ok r) = (is_success r ≡ true) ⊎ (r.code ≡ 409)

-- Some POST of the trace was accepted.
abbrev pub Acknowledged : TopicEnv → List TopicCall → Type 0
Acknowledged env [] = ⊥
Acknowledged env (post_topic url name partitions ∷ before) =
    IsAccepted (env.post before url name partitions) ⊎ Acknowledged env before
Acknowledged env (_ ∷ before) = Acknowledged env before

-- Every status of the trace that says ready was published after an accepted POST.
abbrev pub ReadyIsBacked : TopicEnv → List TopicCall → Type 0
ReadyIsBacked env [] = Unit {0}
ReadyIsBacked env (patch_status ns name s ∷ before) =
    (s.ready ≡ true → Acknowledged env before) × ReadyIsBacked env before
ReadyIsBacked env (_ ∷ before) = ReadyIsBacked env before

taken : (r : HttpResponse) → is_refused r ≡ false → IsAccepted (ok r)
unfolding is_refused
taken r h = ground arith

module _ (json : Json) (env : TopicEnv) where
  update_status-backed :
      (topic : StreamlineTopic) (namespace : String)
      (build : String → StreamlineTopic → TopicStatus) (w : World TopicCall)
      → ((now : String) → (build now topic).ready ≡ true → Acknowledged env w.trace)
      → ReadyIsBacked env w.trace
      → ReadyIsBacked env (update_status json env topic namespace build w).1.trace
  unfolding update_status now_at pure kube ◌>>=◌
  update_status-backed topic namespace build w backed h =
      elim (Bool-cases
        (is_published TopicStatus-discrete topic.status (build (env.now w.trace) topic))) [
          | inl same ↦ rw same h
          | inr new ↦ rw new (backed (env.now w.trace), h)
        ]

  fetch-Acknowledged :
      (endpoint name : String) (w : World TopicCall)
      → Acknowledged env w.trace
      → Acknowledged env (fetch_topic_state json env endpoint name w).1.trace
  unfolding fetch_topic_state pure call ◌>>=◌
  fetch-Acknowledged endpoint name w h = h

  fetch-backed :
      (endpoint name : String)
      → Keeps (ReadyIsBacked env) (fetch_topic_state json env endpoint name)
  unfolding fetch_topic_state pure call ◌>>=◌
  fetch-backed endpoint name = record { at = λ w h. h }

  after_post-Acknowledged :
      (topic : StreamlineTopic) (endpoint : String) (answer : Result String HttpResponse)
      (w : World TopicCall) {st : TopicServerState}
      → (IsAccepted answer → Acknowledged env w.trace)
      → (after_post json env topic endpoint answer w).0 ≡ ok st
      → Acknowledged env (after_post json env topic endpoint answer w).1.trace
  unfolding after_post pure fail call ◌>>=◌
  after_post-Acknowledged topic endpoint (err e) w h q = cc
  after_post-Acknowledged topic endpoint (ok r) w h q = elim (Bool-cases (is_refused r)) [
    | inl bad ↦ absurd (cc (rw bad at q))
    | inr good ↦
        let a = h (taken r good) in
        rw good (elim (Bool-cases (reports_nothing (parse_topic_state json r.body))) [
          | inl e ↦ rw e a
          | inr e ↦ rw e a
        ])
  ]

  after_post-backed :
      (topic : StreamlineTopic) (endpoint : String) (answer : Result String HttpResponse)
      → Keeps (ReadyIsBacked env) (after_post json env topic endpoint answer)
  unfolding after_post
  after_post-backed topic endpoint (err e) = search keeps_rules
  after_post-backed topic endpoint (ok r) = search (keeps_rules, fetch-backed)

  -- A state comes back only after an accepted POST.
  create-Acknowledged :
      (topic : StreamlineTopic) (cluster : StreamlineCluster) (w : World TopicCall)
      {st : TopicServerState}
      → (create_or_update_topic json env topic cluster w).0 ≡ ok st
      → Acknowledged env (create_or_update_topic json env topic cluster w).1.trace
  unfolding create_or_update_topic call ◌>>=◌
  create-Acknowledged topic cluster w q = after_post-Acknowledged topic _ _ _ (λ a. inl a) q

  create-backed :
      (topic : StreamlineTopic) (cluster : StreamlineCluster)
      → Keeps (ReadyIsBacked env) (create_or_update_topic json env topic cluster)
  unfolding create_or_update_topic
  create-backed topic cluster =
      Keeps-bind _ _ _ (Keeps-call _ _ (λ cs h. h)) (λ answer. after_post-backed topic _ answer)

  publish_outcome-backed :
      (topic : StreamlineTopic) (namespace : String) (st : TopicServerState) (o : SyncOutcome)
      (w : World TopicCall)
      → Acknowledged env w.trace
      → ReadyIsBacked env w.trace
      → ReadyIsBacked env (publish_outcome json env topic namespace st o w).1.trace
  unfolding publish_outcome
  publish_outcome-backed topic namespace st (in_sync r) w a h =
      update_status-backed topic namespace (λ now t. ready_status now t r true) w (λ _ _. a) h
  publish_outcome-backed topic namespace st unverified w a h =
      update_status-backed topic namespace (λ now t. ready_status now t st false) w (λ _ _. a) h
  publish_outcome-backed topic namespace st (drift m) w a h =
      update_status-backed topic namespace (λ now t. error_status now t m) w (λ _ _. a) h

  -- What follows an action that keeps the invariant in this state.
  then-backed :
      {A B : Type 0} (m : Exec TopicCall A) (f : A → Exec TopicCall B) (w : World TopicCall)
      → ((a : A) → Keeps (ReadyIsBacked env) (f a))
      → ReadyIsBacked env (m w).1.trace
      → ReadyIsBacked env ((m >>= f) w).1.trace
  unfolding ◌>>=◌
  then-backed m f w kf h =
      continue-keeps (ReadyIsBacked env) (m w).0 f (m w).1 (λ a _ q. (kf a).at (m w).1 q) h

  -- A status that is not ready is published freely.
  unready-backed :
      (topic : StreamlineTopic) (namespace : String)
      (build : String → StreamlineTopic → TopicStatus)
      → ((now : String) → (build now topic).ready ≡ false)
      → Keeps (ReadyIsBacked env) (update_status json env topic namespace build)
  unready-backed topic namespace build unready = record {
    at = λ w h. update_status-backed topic namespace build w (λ now r. absurd (cc (unready now))) h;
  }

  after_topic-backed :
      (topic : StreamlineTopic) (namespace : String) (r : Result OperatorError TopicServerState)
      (w : World TopicCall)
      → ((st : TopicServerState) → r ≡ ok st → Acknowledged env w.trace)
      → ReadyIsBacked env w.trace
      → ReadyIsBacked env (after_topic json env topic namespace r w).1.trace
  unfolding after_topic
  after_topic-backed topic namespace (ok st) w a h =
      then-backed _ _ w (λ _. search keeps_rules)
        (publish_outcome-backed topic namespace st (evaluate_sync topic.spec st) w (a st refl) h)
  after_topic-backed topic namespace (err e) w a h =
      (Keeps-bind _ _ _
          (unready-backed topic namespace (λ now t. error_status now t (to_string e))
            (λ now. error-not_ready now topic (to_string e)))
          (λ _. search keeps_rules)).at
        w h

  ready_cluster-backed :
      (topic : StreamlineTopic) (namespace : String) (cluster : StreamlineCluster)
      → Keeps (ReadyIsBacked env) (with_ready_cluster json env topic namespace cluster)
  unfolding with_ready_cluster catch ◌>>=◌
  ready_cluster-backed topic namespace cluster = record {
    at = λ w h.
        let m = create_or_update_topic json env topic cluster in
        after_topic-backed topic namespace (m w).0 (m w).1
          (λ st q. create-Acknowledged topic cluster w q) ((create-backed topic cluster).at w h);
  }

  -- A status that is not ready is published, and the object is put back in the queue.
  requeue-backed :
      (topic : StreamlineTopic) (namespace : String)
      (build : String → StreamlineTopic → TopicStatus) (delay : ℕ)
      → ((now : String) → (build now topic).ready ≡ false)
      → Keeps
          (ReadyIsBacked env)
          (update_status json env topic namespace build >>= λ _. pure (requeue delay))
  requeue-backed topic namespace build delay unready =
      Keeps-bind _ _ _ (unready-backed topic namespace build unready) (λ _. search keeps_rules)

  with_cluster-backed :
      (topic : StreamlineTopic) (namespace : String) (found : Result KubeError StreamlineCluster)
      → Keeps (ReadyIsBacked env) (with_cluster json env topic namespace found)
  unfolding with_cluster
  with_cluster-backed topic namespace (err e) =
      let message = format ("Cluster " ∷ topic.spec.cluster_ref ∷ " not found" ∷ []) in
      requeue-backed topic namespace (λ now t. error_status now t message) 30
        (λ now. error-not_ready now topic message)
  with_cluster-backed topic namespace (ok cluster) =
      Keeps-if _ _ _ (λ _. ready_cluster-backed topic namespace cluster)
        (λ _.
          requeue-backed topic namespace
            (λ now t. pending_status now t "Waiting for cluster to be ready") 10
            (λ now. pending-not_ready now topic "Waiting for cluster to be ready"))

  gated-backed :
      (topic : StreamlineTopic) (namespace : String) (us : List String)
      → Keeps (ReadyIsBacked env) (gated json env topic namespace us)
  unfolding gated
  gated-backed topic namespace [] =
      Keeps-bind _ _ _ (Keeps-call _ _ (λ cs h. h))
        (λ found. with_cluster-backed topic namespace found)
  gated-backed topic namespace (u ∷ us) =
      let message = join "; " (u ∷ us) in
      Keeps-bind _ _ _
        (unready-backed topic namespace (λ now t. unsupported_status now t message)
          (λ now. unsupported-not_ready now topic message))
        (λ _. search keeps_rules)

  live-backed :
      (topic : StreamlineTopic) (namespace : String)
      → Keeps (ReadyIsBacked env) (reconcile_live json env topic namespace)
  unfolding reconcile_live ensure_finalizer write
  live-backed topic namespace =
      Keeps-bind _ _ _
        (Keeps-if (has topic_finalizer (finalizers_of topic)) (pure tt)
          (write json env
            (apply_finalizers namespace topic.metadata.name_any (topic_finalizer ∷ [])))
          (λ _. Keeps-pure tt) (λ _. Keeps-kube _ _ (λ cs h. h)))
        (λ _. gated-backed topic namespace (unsupported_fields topic.spec))

  server_delete-backed :
      (topic : StreamlineTopic) (namespace : String) (found : Result KubeError StreamlineCluster)
      → Keeps (ReadyIsBacked env) (delete_on_server json env topic namespace found)
  unfolding delete_on_server
  server_delete-backed topic namespace (err e) = Keeps-pure tt
  server_delete-backed topic namespace (ok cluster) =
      Keeps-bind _ _ _ (Keeps-call _ _ (λ cs h. h)) (λ _. Keeps-pure tt)

  deletion-backed :
      (topic : StreamlineTopic) (namespace : String)
      → Keeps (ReadyIsBacked env) (handle_deletion json env topic namespace)
  unfolding handle_deletion write
  deletion-backed topic namespace = Keeps-bind _ _ _ (Keeps-call _ _ (λ cs h. h)) (λ found.
      Keeps-bind _ _ _ (server_delete-backed topic namespace found)
        (λ _. Keeps-bind _ _ _ (Keeps-kube _ _ (λ cs h. h)) (λ _. Keeps-pure await_change)))

  -- Whatever the API server, the Streamline server and the clock answer: in each trace that a
  -- reconcile started on an empty trace leaves, every topic status that says ready comes after a POST
  -- of a topic, in the same trace, that the server answered with a success or a conflict.
  pub ready_only_after_accept :
      (topic : StreamlineTopic) (w : World TopicCall)
      → w.trace ≡ []
      → ReadyIsBacked env (reconcile json env topic w).1.trace
  unfolding reconcile
  ready_only_after_accept topic w start =
      (Keeps-bind (ReadyIsBacked env) _ _ (Keeps-meter _) (λ _. Keeps-timed _ _ (
          Keeps-if _ _ _ (λ _. deletion-backed topic (namespace_of topic.metadata.namespace))
            (λ _. live-backed topic (namespace_of topic.metadata.namespace))))).at
        w (rw start tt)
