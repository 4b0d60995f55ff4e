-- ===== src/ClusterController/Reconcile/Teardown.antt =====
-- What holds of the calls of src/controllers/cluster.rs from the teardown of the cluster's HPA on.
use streamline_operator.Base.{
  String, false, some, List, [], ◌∷◌, ◌≡◌, refl, ◌⊎◌, inr, Result, ok, err, arith,
}
use streamline_operator.Runtime.{KubeError, World, pure, fail}
use streamline_operator.Runtime.Keeps.{
  Keeps, keeps_rules, Keeps-bind, Keeps-pure, Keeps-call, Keeps-kube,
}
use streamline_operator.Crd.Cluster.{StreamlineCluster, ClusterStatus}
use streamline_operator.Autoscaling.{AutoScalingConfig}
use streamline_operator.ClusterController.Calls.{
  Workload, ClusterCall, apply_finalizers, merge_finalizers, list_claims, delete_claim, list_pods,
  delete_hpa_call, get_object, patch_object, create_object, patch_status, ClusterEnv,
}
use streamline_operator.ClusterController.Reconcile.{
  classify_delete_error, gone, propagate, deleted, after_delete, hpa_if, attempt, write,
  patch_or_create, apply_object, patch_status_if_changed, update_status_invalid, update_status,
  reconcile_configmap, reconcile_headless_service, reconcile_client_service, reconcile_statefulset,
  validated,
}

-- The HPA was deleted, or there was none.
abbrev pub IsGone : Result KubeError (Unit {0}) → Type 0
IsGone (ok _) = Unit {0}
IsGone (err e) = e.api_code ≡ some 404

-- The call `teardown` was answered so.
abbrev pub TornDown : ClusterEnv → ClusterCall → List ClusterCall → Type 0
TornDown env teardown [] = ⊥
TornDown env teardown (c ∷ before) =
    ((c ≡ teardown) × IsGone (env.write before c)) ⊎ TornDown env teardown before

-- Every object of the trace was written after that.
abbrev pub IsGuarded : ClusterEnv → ClusterCall → List ClusterCall → Type 0
IsGuarded env teardown [] = Unit {0}
IsGuarded env teardown (patch_object _ _ _ ∷ before) =
    TornDown env teardown before × IsGuarded env teardown before
IsGuarded env teardown (create_object _ _ _ ∷ before) =
    TornDown env teardown before × IsGuarded env teardown before
IsGuarded env teardown (_ ∷ before) = IsGuarded env teardown before

-- Both at once: what holds from the teardown on.
abbrev pub IsSafe : ClusterEnv → ClusterCall → List ClusterCall → Type 0
IsSafe env teardown cs = TornDown env teardown cs × IsGuarded env teardown cs

gone-IsGone : (e : KubeError) → classify_delete_error e ≡ gone → e.api_code ≡ some 404
unfolding classify_delete_error
gone-IsGone e h = ground arith

pub deleted-IsGone :
    (cluster : StreamlineCluster) (namespace : String) (r : Result KubeError (Unit {0}))
    (w : World ClusterCall)
    → (deleted cluster namespace r w).0 ≡ ok tt
    → IsGone r
unfolding deleted after_delete fail
deleted-IsGone cluster namespace (ok _) w h = tt
deleted-IsGone cluster namespace (err e) w h = by_outcome (classify_delete_error e) refl h
  where
    by_outcome :
        (o : _)
        → classify_delete_error e ≡ o
        → (after_delete cluster namespace e o w).0 ≡ ok tt
        → e.api_code ≡ some 404
    by_outcome gone q h = gone-IsGone e q
    by_outcome propagate q h = cc

pub deleted-quiet :
    (cluster : StreamlineCluster) (namespace : String) (r : Result KubeError (Unit {0}))
    (w : World ClusterCall)
    → (deleted cluster namespace r w).1 ≡ w
unfolding deleted after_delete fail pure
deleted-quiet cluster namespace (ok _) w = refl
deleted-quiet cluster namespace (err e) w = by_outcome (classify_delete_error e)
  where
    by_outcome : (o : _) → (after_delete cluster namespace e o w).1 ≡ w
    by_outcome gone = refl
    by_outcome propagate = refl

module _ (env : ClusterEnv) (teardown : ClusterCall) where
  -- Once the HPA is gone, any call is allowed.
  any_call :
      (c : ClusterCall) (cs : List ClusterCall)
      → IsSafe env teardown cs
      → IsSafe env teardown (c ∷ cs)
  any_call (apply_finalizers _ _ _) cs (t, g) = (inr t, g)
  any_call (merge_finalizers _ _ _) cs (t, g) = (inr t, g)
  any_call (list_claims _ _) cs (t, g) = (inr t, g)
  any_call (delete_claim _ _) cs (t, g) = (inr t, g)
  any_call (list_pods _ _) cs (t, g) = (inr t, g)
  any_call (delete_hpa_call _ _) cs (t, g) = (inr t, g)
  any_call (get_object _ _) cs (t, g) = (inr t, g)
  any_call (patch_object _ _ _) cs (t, g) = (inr t, (t, g))
  any_call (create_object _ _ _) cs (t, g) = (inr t, (t, g))
  any_call (patch_status _ _ _) cs (t, g) = (inr t, g)

  write-IsSafe : (c : ClusterCall) → Keeps (IsSafe env teardown) (write env c)
  unfolding write
  write-IsSafe c = Keeps-kube c (λ before. env.write before c) (any_call c)

  attempt-IsSafe : (c : ClusterCall) → Keeps (IsSafe env teardown) (attempt env c)
  unfolding attempt
  attempt-IsSafe c = Keeps-call c (λ before. env.write before c) (any_call c)

  patch_or_create-IsSafe :
      (namespace name : String) (object : Workload) (r : Result KubeError (Unit {0}))
      → Keeps (IsSafe env teardown) (patch_or_create env namespace name object r)
  unfolding patch_or_create
  patch_or_create-IsSafe namespace name object (ok _) =
      write-IsSafe (patch_object namespace name object)
  patch_or_create-IsSafe namespace name object (err _) =
      write-IsSafe (create_object namespace name object)

  apply_object-IsSafe :
      (namespace name : String) (object : Workload)
      → Keeps (IsSafe env teardown) (apply_object env namespace name object)
  unfolding apply_object
  apply_object-IsSafe namespace name object =
      Keeps-bind _ _ _ (attempt-IsSafe (get_object namespace name))
        (λ r. patch_or_create-IsSafe namespace name object r)

  publish-IsSafe :
      (cluster : StreamlineCluster) (namespace : String) (s : ClusterStatus)
      → Keeps (IsSafe env teardown) (patch_status_if_changed env cluster namespace s)
  unfolding patch_status_if_changed
  publish-IsSafe cluster namespace s = search (keeps_rules, write-IsSafe)

  update_status-IsSafe :
      (cluster : StreamlineCluster) (namespace : String)
      → Keeps (IsSafe env teardown) (update_status env cluster namespace)
  unfolding update_status
  update_status-IsSafe cluster namespace = search (keeps_rules, any_call, publish-IsSafe)

  update_status_invalid-IsSafe :
      (cluster : StreamlineCluster) (namespace message : String)
      → Keeps (IsSafe env teardown) (update_status_invalid env cluster namespace message)
  unfolding update_status_invalid
  update_status_invalid-IsSafe cluster namespace message = search (keeps_rules, publish-IsSafe)

  objects-IsSafe :
      (cluster : StreamlineCluster) (namespace : String)
      → Keeps (IsSafe env teardown) (reconcile_configmap env cluster namespace)
        × Keeps (IsSafe env teardown) (reconcile_headless_service env cluster namespace)
        × Keeps (IsSafe env teardown) (reconcile_client_service env cluster namespace)
        × Keeps (IsSafe env teardown) (reconcile_statefulset env cluster namespace)
  unfolding reconcile_configmap reconcile_headless_service reconcile_client_service
      reconcile_statefulset
  objects-IsSafe cluster namespace = (
    apply_object-IsSafe _ _ _,
    apply_object-IsSafe _ _ _,
    apply_object-IsSafe _ _ _,
    apply_object-IsSafe _ _ _,
  )

  off-IsSafe :
      (cluster : StreamlineCluster) (namespace : String) (config : AutoScalingConfig)
      → config.enabled ≡ false
      → Keeps (IsSafe env teardown) (hpa_if env config.enabled cluster namespace config)
  unfolding hpa_if
  off-IsSafe cluster namespace config off = rw off (Keeps-pure tt)

  pub validated-IsSafe :
      (cluster : StreamlineCluster) (namespace : String) (config : AutoScalingConfig)
      (v : Result (List String) (Unit {0}))
      → config.enabled ≡ false
      → Keeps (IsSafe env teardown) (validated env cluster namespace config v)
  unfolding validated
  validated-IsSafe cluster namespace config (err es) off =
      search (keeps_rules, update_status_invalid-IsSafe)
  validated-IsSafe cluster namespace config (ok _) off =
      let (c, h, s, w) = objects-IsSafe cluster namespace in
      Keeps-bind _ _ _ c (λ _. Keeps-bind _ _ _ h (λ _. Keeps-bind _ _ _ s (λ _.
        Keeps-bind _ _ _ w (λ _.
          Keeps-bind _ _ _ (off-IsSafe cluster namespace config off)
            (λ _. search (keeps_rules, update_status-IsSafe))))))
