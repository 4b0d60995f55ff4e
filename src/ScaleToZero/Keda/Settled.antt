-- ===== src/ScaleToZero/Keda/Settled.antt =====
-- When the reconciliation of the ScaledObject succeeds.
use streamline_operator.Base.{
  subst, if◌then◌else◌, String, Bool, true, false, Option, none, some, ◌∷◌, ◌≡◌, refl, ◌↔◌, ◌⊎◌,
  inl, inr, Result, ok, err, arith, ◌≢◌, List, [],
}
use streamline_operator.Crd.Cluster.{StreamlineCluster}
use streamline_operator.Runtime.{KubeError, World, fail, call, kube, pure, ◌>>=◌}
use streamline_operator.ClusterController.Workloads.{build_statefulset}
use streamline_operator.ScaleToZero.{KedaTrigger, KedaConfig, ScaleToZeroConfig}
use streamline_operator.ScaleToZero.Keda.{
  triggers_or_default, ScaledObject, scaled_object, scaled_object_name, KedaCall, KedaEnv,
  get_scaled_object, patch_scaled_object, create_scaled_object, build_keda_scaled_object,
  delete_keda_scaled_object, reconcile_keda_scaled_object, with_keda, apply_built,
}

-- The call that writes the object: a patch where the read found one, else a create.
abbrev pub write_after : Result KubeError (Unit {0}) → String → String → ScaledObject → KedaCall
write_after (ok _) namespace name object = patch_scaled_object namespace name object
write_after (err _) namespace name object = create_scaled_object namespace name object

-- The server accepts the write that follows the read.
abbrev pub IsAccepted :
    KedaEnv → StreamlineCluster → String → World KedaCall → ScaledObject → Type 0
IsAccepted env cluster namespace w object =
    let name = scaled_object_name cluster in
    let read = get_scaled_object namespace name in
    env.answer (read ∷ w.trace) (write_after (env.answer w.trace read) namespace name object)
    ≡ ok tt

-- What the object asks of KEDA: to scale the StatefulSet of the cluster, which it is owned with, within the
-- configured limits and on one trigger at least.
pub record IsFor (cluster : StreamlineCluster) (namespace : String) (keda_config : KedaConfig)
    (o : ScaledObject) : Type 0 where
  pub named : o.metadata.name ≡ scaled_object_name cluster
  pub placed : o.metadata.namespace ≡ namespace
  pub targets : o.scale_target_name ≡ (build_statefulset cluster namespace).metadata.name
  pub owned :
      o.metadata.owner_references ≡ (build_statefulset cluster namespace).metadata.owner_references
  pub fewest : o.min_replica_count ≡ keda_config.min_replica_count
  pub most : o.max_replica_count ≡ keda_config.max_replica_count
  pub triggered : o.triggers ≢ []

scaled_object-IsFor :
    (cluster : StreamlineCluster) (namespace : String) (keda_config : KedaConfig)
    → IsFor cluster namespace keda_config (scaled_object cluster namespace keda_config)
unfolding scaled_object build_statefulset
scaled_object-IsFor cluster namespace keda_config = record {
  named = refl;
  placed = refl;
  targets = refl;
  owned = refl;
  fewest = refl;
  most = refl;
  triggered = never_empty keda_config.triggers;
}
  where
    never_empty : (ts : List KedaTrigger) → triggers_or_default cluster namespace ts ≢ []
    never_empty [] e = cc e
    never_empty (t ∷ ts) e = cc e

-- With the calls of `w` made before, the configured object is rendered, serialized and written.
pub record IsWritten (env : KedaEnv) (cluster : StreamlineCluster) (namespace : String)
    (config : ScaleToZeroConfig) (w : World KedaCall) : Type 0 where
  pub keda_config : KedaConfig
  pub object : ScaledObject
  pub configured : config.keda ≡ some keda_config
  pub fits : IsFor cluster namespace keda_config (scaled_object cluster namespace keda_config)
  pub rendered : env.from_value (scaled_object cluster namespace keda_config) ≡ ok object
  pub accepted : IsAccepted env cluster namespace w object

same_object :
    (env : KedaEnv) (cluster : StreamlineCluster) (namespace : String) (config : ScaleToZeroConfig)
    (w : World KedaCall) (kc : KedaConfig) (object : ScaledObject)
    → config.keda ≡ some kc
    → env.from_value (scaled_object cluster namespace kc) ≡ ok object
    → (written : IsWritten env cluster namespace config w) → written.object ≡ object
same_object env cluster namespace config w kc object e f written =
    cc (e, f, written.configured, written.rendered)

module _ (env : KedaEnv) (cluster : StreamlineCluster) (namespace : String) where
  applied_iff :
      (object : ScaledObject) (w : World KedaCall)
      → ((apply_built env namespace (scaled_object_name cluster) (ok object) w).0 ≡ ok tt)
        ↔ IsAccepted env cluster namespace w object
  unfolding kube call ◌>>=◌
  applied_iff object w = ground arith

  serialized_iff :
      (config : ScaleToZeroConfig) (w : World KedaCall) (kc : KedaConfig)
      (v : Result String ScaledObject)
      → config.keda ≡ some kc
      → env.from_value (scaled_object cluster namespace kc) ≡ v
      → ((with_keda env cluster namespace (some kc) w).0 ≡ ok tt)
        ↔ IsWritten env cluster namespace config w
  unfolding build_keda_scaled_object fail
  serialized_iff config w kc (err reason) e f =
      (λ h. cc (rw f at h), λ written. cc (e, written.configured, f, written.rendered))
  serialized_iff config w kc (ok object) e f = (
    λ h. record {
      keda_config = kc;
      fits = scaled_object-IsFor cluster namespace kc;
      object = object;
      configured = e;
      rendered = f;
      accepted = (applied_iff object w).0 (rw f at h);
    },
    λ written. rw f (
        (applied_iff object w).1 (
          subst (IsAccepted env cluster namespace w)
            (same_object env cluster namespace config w kc object e f written) written.accepted)),
  )

  enabled_iff :
      (config : ScaleToZeroConfig) (w : World KedaCall) (k : Option KedaConfig)
      → config.keda ≡ k
      → ((with_keda env cluster namespace k w).0 ≡ ok tt) ↔ IsWritten env cluster namespace config w
  unfolding fail
  enabled_iff config w none e = (λ h. cc, λ written. cc (e, written.configured))
  enabled_iff config w (some kc) e =
      serialized_iff config w kc (env.from_value (scaled_object cluster namespace kc)) e refl

  either_iff :
      (config : ScaleToZeroConfig) (w : World KedaCall) (enabled : Bool)
      → (((if enabled
              then with_keda env cluster namespace config.keda
              else delete_keda_scaled_object env cluster namespace)
            w).0
          ≡ ok tt)
        ↔ ((enabled ≡ false) ⊎ IsWritten env cluster namespace config w)
  unfolding delete_keda_scaled_object call pure ◌>>=◌
  either_iff config w true =
      let written_iff = enabled_iff config w config.keda refl in
      (
        λ h. inr (written_iff.0 h),
        λ h. elim h [ inl off ↦ absurd (cc off) | inr written ↦ written_iff.1 written ],
      )
  either_iff config w false = (λ h. inl refl, λ h. refl)

  -- The reconciliation of the ScaledObject succeeds exactly when KEDA is disabled, whatever the delete is
  -- answered with, or when a KEDA configuration is given, the object rendered from it is serialized, and
  -- the server accepts the write: a patch where the object was found, else a create. The rendered
  -- object has the name and namespace it is written under, the StatefulSet of the cluster as its target,
  -- the same owner as that, the configured replica limits, and a trigger.
  pub keda_reconciled_iff :
      (config : ScaleToZeroConfig) (w : World KedaCall)
      → ((reconcile_keda_scaled_object env cluster namespace config w).0 ≡ ok tt)
        ↔ ((config.keda_enabled ≡ false) ⊎ IsWritten env cluster namespace config w)
  unfolding reconcile_keda_scaled_object
  keda_reconciled_iff config w = either_iff config w config.keda_enabled
