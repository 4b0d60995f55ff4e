-- ===== src/ClusterController/Reconcile/FailClosed.antt =====
-- What a pass of the cluster's reconciler does with a spec that the validation rejects.
use streamline_operator.Base.{String, false, List, [], ◌≡◌, refl, Result, ok, err}
use streamline_operator.Runtime.{KubeError, World}
use streamline_operator.Runtime.Traces.{
  All, Emits, emits_rules, Emits-bind, Emits-if, Emits-timed, Emits-meter, Emits-call, Emits-kube,
  Emits-pure, Emits-fail, Emits-now_at,
}
use streamline_operator.Base.Text.{join}
use streamline_operator.Crd.Meta.{is_deleting}
use streamline_operator.Crd.Cluster.{StreamlineCluster, failed}
use streamline_operator.Validate.{validate}
use streamline_operator.Autoscaling.Hpa.{hpa_name}
use streamline_operator.ClusterController.Statuses.{invalid_status}
use streamline_operator.ClusterController.Statuses.Stable.{stamp-put}
use streamline_operator.ClusterController.Calls.{
  ClusterCall, apply_finalizers, delete_hpa_call, patch_status, ClusterEnv,
}
use streamline_operator.ClusterController.Reconcile.{
  desired_hpa_config, is_ok, classify_delete_error, gone, propagate, deleted, after_delete,
  delete_hpa, attempt, write, ensure_finalizer, patch_status_if_changed, update_status_invalid,
  validated, reconcile_live, reconcile, namespace_of,
}
use streamline_operator.ClusterController.Reconcile.Unscaled.{hpa_never_desired, teardown_is}

-- The calls that a rejected spec may lead to: the finalizer, the removal of the cluster's HPA, and a
-- status that says that the cluster failed.
abbrev pub IsRejectionCall : StreamlineCluster → ClusterCall → Type 0
IsRejectionCall cluster (apply_finalizers _ _ _) = Unit {0}
IsRejectionCall cluster (delete_hpa_call _ name) = name ≡ hpa_name cluster
IsRejectionCall cluster (patch_status _ _ s) = (s.phase ≡ failed) × (s.broker_endpoints ≡ [])
IsRejectionCall cluster _ = ⊥

invalid-failed :
    (now : String) (cluster : StreamlineCluster) (message : String)
    → ((invalid_status now cluster message).phase ≡ failed)
      × ((invalid_status now cluster message).broker_endpoints ≡ [])
unfolding invalid_status
invalid-failed now cluster message = rw ((stamp-put now cluster _).1) (refl, refl)

module _ (env : ClusterEnv) (cluster : StreamlineCluster) (namespace : String) where
  deleted-Emits :
      (r : Result KubeError (Unit {0}))
      → Emits (IsRejectionCall cluster) (deleted cluster namespace r)
  unfolding deleted after_delete
  deleted-Emits (ok _) = Emits-pure tt
  deleted-Emits (err e) = by_outcome (classify_delete_error e)
    where
      by_outcome : (o : _) → Emits (IsRejectionCall cluster) (after_delete cluster namespace e o)
      by_outcome gone = Emits-pure tt
      by_outcome propagate = Emits-fail _

  delete_hpa-Emits : Emits (IsRejectionCall cluster) (delete_hpa env cluster namespace)
  unfolding delete_hpa attempt
  delete_hpa-Emits =
      Emits-bind _ _ (Emits-call (delete_hpa_call namespace (hpa_name cluster)) _ refl)
        (λ r. deleted-Emits r)

  invalid-Emits :
      (message : String)
      → Emits (IsRejectionCall cluster) (update_status_invalid env cluster namespace message)
  unfolding update_status_invalid patch_status_if_changed write
  invalid-Emits message = Emits-bind _ _ (Emits-now_at env.now) (λ now.
      Emits-if _ _
        (write env
          (patch_status namespace cluster.metadata.name_any (invalid_status now cluster message)))
        (λ _. Emits-pure tt)
        (λ _.
          Emits-kube
            (patch_status namespace cluster.metadata.name_any (invalid_status now cluster message))
            _ (invalid-failed now cluster message)))

  rejected-Emits :
      (errors : List String)
      → validate cluster.spec ≡ err errors
      → Emits (IsRejectionCall cluster) (reconcile_live env cluster namespace)
  unfolding reconcile_live ensure_finalizer write validated
  rejected-Emits errors bad = Emits-bind _ _ (search emits_rules) (λ _.
      rw
        (teardown_is env cluster namespace
          (desired_hpa_config cluster.spec.autoscaling (is_ok (validate cluster.spec)))
          (hpa_never_desired cluster.spec))
        (Emits-bind _ _ delete_hpa-Emits (λ _. rejected (validate cluster.spec) bad)))
    where
      rejected :
          (v : _)
          → v ≡ err errors
          → Emits (IsRejectionCall cluster) (
              validated env cluster namespace
                (desired_hpa_config cluster.spec.autoscaling (is_ok (validate cluster.spec)))
                v)
      rejected (ok _) q = cc
      rejected (err es) q = Emits-bind _ _ (invalid-Emits (join "; " es)) (λ _. search emits_rules)

-- For a cluster that is not being deleted and whose spec the validation rejects, whatever the API
-- server answers, every call of one pass applies the finalizer, deletes the cluster's own HPA, or
-- publishes a failed status without broker endpoints: no workload is read, written or listed.
pub rejected_spec_fails_closed :
    (env : ClusterEnv) (cluster : StreamlineCluster) (errors : List String) (w : World ClusterCall)
    → validate cluster.spec ≡ err errors
    → is_deleting cluster.metadata ≡ false
    → w.trace ≡ []
    → All (IsRejectionCall cluster) (reconcile env cluster w).1.trace
unfolding reconcile
rejected_spec_fails_closed env cluster errors w bad live start = rw live (
    (Emits-bind _ _ (Emits-meter _) (λ _.
        Emits-timed env.elapsed_ms _
          (rejected-Emits env cluster (namespace_of cluster) errors bad))).at
      w (rw start tt))
