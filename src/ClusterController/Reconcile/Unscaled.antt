-- ===== src/ClusterController/Reconcile/Unscaled.antt =====
-- No pass of the cluster's reconciler writes an HPA, and none writes a workload before the HPA that an
-- earlier operator left behind is known to be gone.
use streamline_operator.Base.{
  String, Bool, true, false, not, Option, none, some, List, [], ◌∷◌, ◌≡◌, refl, inl, Result, ok,
  err, arith,
}
use streamline_operator.Runtime.{World, call, ◌>>=◌}
use streamline_operator.Runtime.Keeps.{
  Keeps, keeps_rules, Keeps-bind, Keeps-bind_at, Keeps-if, Keeps-timed, Keeps-meter, Keeps-call,
  Keeps-kube,
}
use streamline_operator.Crd.Cluster.{StreamlineCluster, ClusterSpec, AutoScalingSpec}
use streamline_operator.Validate.{validate}
use streamline_operator.Validate.Exact.{IsOff, validate_iff}
use streamline_operator.Autoscaling.{AutoScalingConfig}
use streamline_operator.Autoscaling.Hpa.{hpa_name}
use streamline_operator.ClusterController.Calls.{ClusterCall, delete_hpa_call, ClusterEnv}
use streamline_operator.ClusterController.Reconcile.{
  desired_hpa_config, hpa_action, by_action, is_ok, delete_hpa, reconcile_hpa, hpa_if, attempt,
  write, ensure_finalizer, delete_claims, handle_deletion, validated, reconcile_live, reconcile,
  namespace_of,
}
use streamline_operator.ClusterController.Reconcile.Teardown.{
  IsGuarded, IsSafe, validated-IsSafe, deleted-IsGone, deleted-quiet,
}

off_config :
    (a : Option AutoScalingSpec) (b : Bool) → IsOff a → (desired_hpa_config a b).enabled ≡ false
unfolding desired_hpa_config
off_config none b h = refl
off_config (some a) b h = ground arith

rejected_config : (a : Option AutoScalingSpec) → (desired_hpa_config a false).enabled ≡ false
unfolding desired_hpa_config
rejected_config none = refl
rejected_config (some a) = ground arith

-- For every spec, the HPA configuration that `reconcile` decides on is a disabled one: where the
-- validation accepts the spec, autoscaling is not asked for.
pub hpa_never_desired :
    (s : ClusterSpec) → (desired_hpa_config s.autoscaling (is_ok (validate s))).enabled ≡ false
hpa_never_desired s = by_verdict (validate s) refl
  where
    by_verdict :
        (v : Result (List String) (Unit {0}))
        → validate s ≡ v
        → (desired_hpa_config s.autoscaling (is_ok v)).enabled ≡ false
    by_verdict (ok _) h = off_config s.autoscaling true ((validate_iff s).0 h).no_autoscaling
    by_verdict (err es) h = rejected_config s.autoscaling

module _ (env : ClusterEnv) (cluster : StreamlineCluster) (namespace : String) where
  -- The delete of the cluster's HPA.
  abbrev pub teardown_call : ClusterCall
  teardown_call = delete_hpa_call namespace (hpa_name cluster)

  delete_hpa-IsGuarded : Keeps (IsGuarded env teardown_call) (delete_hpa env cluster namespace)
  unfolding delete_hpa attempt call ◌>>=◌
  delete_hpa-IsGuarded = record { at = λ w h. rw (deleted-quiet cluster namespace) h }

  delete_hpa-IsSafe :
      (w : World ClusterCall)
      → (delete_hpa env cluster namespace w).0 ≡ ok tt
      → IsGuarded env teardown_call w.trace
      → IsSafe env teardown_call (delete_hpa env cluster namespace w).1.trace
  unfolding delete_hpa attempt call ◌>>=◌
  delete_hpa-IsSafe w q h =
      rw (deleted-quiet cluster namespace) (inl (refl, deleted-IsGone cluster namespace _ _ q), h)

  module _ (config : AutoScalingConfig) (off : config.enabled ≡ false) where
    pub teardown_is :
        hpa_if env (not config.enabled) cluster namespace config ≡ delete_hpa env cluster namespace
    unfolding hpa_if reconcile_hpa hpa_action by_action
    teardown_is = rw off

    torn_then_validated :
        (v : Result (List String) (Unit {0}))
        → Keeps (IsGuarded env teardown_call) (
            hpa_if env (not config.enabled) cluster namespace config >>= λ _.
            validated env cluster namespace config v)
    torn_then_validated v = rw teardown_is (record {
      at = λ w h.
          Keeps-bind_at (IsGuarded env teardown_call) _ _ w delete_hpa-IsGuarded
            (λ a q g.
              ((validated-IsSafe env teardown_call cluster namespace config v off).at _
                (delete_hpa-IsSafe w q h)).1)
            h;
    })

  live-IsGuarded : Keeps (IsGuarded env teardown_call) (reconcile_live env cluster namespace)
  unfolding reconcile_live ensure_finalizer write
  live-IsGuarded =
      Keeps-bind _ _ _ (search keeps_rules)
        (λ _. torn_then_validated _ (hpa_never_desired cluster.spec) (validate cluster.spec))

  claims-IsGuarded :
      (names : List (Option String))
      → Keeps (IsGuarded env teardown_call) (delete_claims env namespace names)
  unfolding delete_claims attempt
  claims-IsGuarded [] = search keeps_rules
  claims-IsGuarded (none ∷ names) = claims-IsGuarded names
  claims-IsGuarded (some name ∷ names) =
      Keeps-bind _ _ _ (Keeps-call _ _ (λ cs h. h)) (λ _. claims-IsGuarded names)

  deletion-IsGuarded : Keeps (IsGuarded env teardown_call) (handle_deletion env cluster namespace)
  unfolding handle_deletion write
  deletion-IsGuarded = Keeps-bind _ _ _ (Keeps-kube _ _ (λ cs h. h)) (λ names.
      Keeps-bind _ _ _ (claims-IsGuarded names)
        (λ _. Keeps-bind _ _ _ (Keeps-kube _ _ (λ cs h. h)) (λ _. search keeps_rules)))

-- Whatever the API server and the clock answer: in the trace that a reconcile started on an empty
-- trace leaves, every object that was patched or created (ConfigMap, Service, StatefulSet, HPA) comes
-- after a delete of the cluster's own HPA that the API server answered with a success or with 404.
pub workloads_after_teardown :
    (env : ClusterEnv) (cluster : StreamlineCluster) (w : World ClusterCall)
    → w.trace ≡ []
    → IsGuarded env
        (delete_hpa_call (namespace_of cluster) (hpa_name cluster))
        (reconcile env cluster w).1.trace
unfolding reconcile
workloads_after_teardown env cluster w start =
    let namespace = namespace_of cluster in
    (Keeps-bind (IsGuarded env (delete_hpa_call namespace (hpa_name cluster))) _ _ (Keeps-meter _)
        (λ _. Keeps-timed _ _ (
          Keeps-if _ _ _ (λ _. deletion-IsGuarded env cluster namespace)
            (λ _. live-IsGuarded env cluster namespace)))).at
      w (rw start tt)
