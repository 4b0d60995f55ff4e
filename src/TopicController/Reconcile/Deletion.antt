-- ===== src/TopicController/Reconcile/Deletion.antt =====
-- The deletion of a topic: it ends in the removal of the operator's finalizer, whatever the cluster
-- lookup and the Streamline server answer.
use streamline_operator.Base.{String, List, ◌∷◌, ◌≡◌, ◌≢◌, refl, Result, ok, err, false, ap}
use streamline_operator.Base.Finalizers.{has, without, has-without_self, has-without_ne}
use streamline_operator.Error.{OperatorError, kube_api}
use streamline_operator.Conditions.{topic_finalizer}
use streamline_operator.Runtime.{
  KubeError, Action, await_change, World, pure, call, kube, kube_result, continue, ◌>>=◌,
}
use streamline_operator.Crd.Cluster.{StreamlineCluster}
use streamline_operator.Crd.Topic.{StreamlineTopic}
use streamline_operator.TopicController.Sync.{Json}
use streamline_operator.TopicController.Calls.{
  TopicCall, TopicEnv, merge_finalizers, get_cluster, finalizers_of,
}
use streamline_operator.TopicController.Reconcile.{handle_deletion, delete_on_server, write}

abbrev pub awaiting : Result KubeError (Unit {0}) → Result OperatorError Action
awaiting (ok _) = ok await_change
awaiting (err e) = err (kube_api e.text)

module _ (json : Json) (env : TopicEnv) (topic : StreamlineTopic) (namespace : String) where
  abbrev removal : TopicCall
  removal =
      merge_finalizers namespace topic.metadata.name_any
        (without topic_finalizer (finalizers_of topic))

  -- The best-effort delete always goes on.
  delete_on_server_total :
      (found : Result KubeError StreamlineCluster) (w : World TopicCall)
      → (w' : World TopicCall) × (delete_on_server json env topic namespace found w ≡ (ok tt, w'))
  unfolding delete_on_server pure call ◌>>=◌
  delete_on_server_total (err e) w = (w, refl)
  delete_on_server_total (ok cluster) w = (_, refl)

  removed :
      (r : Result KubeError (Unit {0})) (w : World TopicCall)
      → continue (kube_result r) (λ _. pure await_change) w ≡ (awaiting r, w)
  unfolding pure
  removed (ok _) w = refl
  removed (err e) w = refl

  removal_last :
      (w : World TopicCall)
      → (before : List TopicCall) × ((handle_deletion json env topic namespace w).1.trace
          ≡ removal ∷ before)
        × ((handle_deletion json env topic namespace w).0 ≡ awaiting (env.write before removal))
  unfolding handle_deletion write kube call ◌>>=◌ pure
  removal_last w =
      let asked : TopicCall = get_cluster namespace topic.spec.cluster_ref in
      let w1 : World TopicCall = record w { trace = asked ∷ w.trace } in
      let found = env.cluster w.trace namespace topic.spec.cluster_ref in
      let (w', e) = delete_on_server_total found w1 in
      let end = removed (env.write w'.trace removal) (record w' { trace = removal ∷ w'.trace }) in
      rw e (
        w'.trace,
        ap (λ (x : Result OperatorError Action × World TopicCall). x.1.trace) end,
        ap (λ (x : Result OperatorError Action × World TopicCall). x.0) end,
      )

  -- The last call of a deletion merges the object's finalizers without the operator's own, every
  -- other one kept; and the deletion succeeds exactly if that call does, to wait for a change: nothing
  -- that the lookup of the cluster or the Streamline server answers can block it.
  pub deletion_removes_finalizer :
      (w : World TopicCall)
      → (before : List TopicCall) × (fs : List String) × ((handle_deletion json env topic namespace
            w).1.trace
          ≡ merge_finalizers namespace topic.metadata.name_any fs ∷ before)
        × ((handle_deletion json env topic namespace w).0
            ≡ awaiting (env.write before (merge_finalizers namespace topic.metadata.name_any fs)))
        × (has topic_finalizer fs ≡ false)
        × ((f : String) → f ≢ topic_finalizer → has f fs ≡ has f (finalizers_of topic))
  deletion_removes_finalizer w =
      let (before, last, result) = removal_last w in
      (
        before,
        without topic_finalizer (finalizers_of topic),
        last,
        result,
        has-without_self topic_finalizer (finalizers_of topic),
        λ f ne. has-without_ne topic_finalizer f (finalizers_of topic) ne,
      )
