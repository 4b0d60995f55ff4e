-- ===== src/ScaleToZero/Keda.antt =====
-- The KEDA part of src/controllers/scale_to_zero.rs: the ScaledObject and its reconciliation.
pub mod Settled
use streamline_operator.Base.{
  ℕ, String, Bool, true, false, Option, none, some, List, [], ◌∷◌, Result, ok, err, map,
  if◌then◌else◌,
}
use streamline_operator.Base.Int.{ℤ}
use streamline_operator.Base.Text.{format}
use streamline_operator.Error.{OperatorError, configuration, serialization}
use streamline_operator.Crd.Cluster.{StreamlineCluster}
use streamline_operator.Runtime.{KubeError, Exec, pure, fail, call, kube, ◌>>=◌}
use streamline_operator.ClusterController.Workloads.{Entries, OwnedMeta, owner_reference}
use streamline_operator.ScaleToZero.{KedaTrigger, KedaConfig, ScaleToZeroConfig}

-- The JSON of a ScaledObject of `keda.sh/v1alpha1`; the target is the `apps/v1` StatefulSet of that name.
pub record ScaledObject : Type 0 where
  pub metadata : OwnedMeta
  pub scale_target_name : String
  pub polling_interval : ℤ
  pub cooldown_period : ℤ
  pub min_replica_count : ℤ
  pub max_replica_count : ℤ
  pub triggers : List KedaTrigger

abbrev pub common_labels : StreamlineCluster → Entries
common_labels cluster =
    ("app.kubernetes.io/component", "scale-to-zero")
    ∷ ("app.kubernetes.io/instance", cluster.metadata.name_any)
    ∷ ("app.kubernetes.io/managed-by", "streamline-operator")
    ∷ ("app.kubernetes.io/name", "streamline")
    ∷ []

abbrev pub scaled_object_name : StreamlineCluster → String
scaled_object_name cluster = format (cluster.metadata.name_any ∷ "-scaledobject" ∷ [])

-- The trigger where none is configured.
abbrev pub default_trigger : StreamlineCluster → String → KedaTrigger
default_trigger cluster namespace = record {
  type = "metrics-api";
  metadata =
      ("targetValue", "1")
      ∷ (
        "url",
        format (
            "http://" ∷ cluster.metadata.name_any ∷ "." ∷ namespace ∷ ".svc.cluster.local:" ∷ "9094"
            ∷ "/scaling/metrics" ∷ []),
      )
      ∷ ("valueLocation", "active_connections")
      ∷ [];
}

abbrev pub triggers_or_default : StreamlineCluster → String → List KedaTrigger → List KedaTrigger
triggers_or_default cluster namespace [] = default_trigger cluster namespace ∷ []
triggers_or_default cluster namespace (t ∷ ts) = t ∷ ts

-- The `data` of `build_keda_scaled_object`.
unfoldable pub scaled_object : StreamlineCluster → String → KedaConfig → ScaledObject
scaled_object cluster namespace keda_config = record {
  metadata = record {
    name = scaled_object_name cluster;
    namespace = namespace;
    labels = common_labels cluster;
    owner_references = owner_reference cluster ∷ [];
  };
  scale_target_name = cluster.metadata.name_any;
  polling_interval = keda_config.polling_interval;
  cooldown_period = keda_config.cooldown_period;
  min_replica_count = keda_config.min_replica_count;
  max_replica_count = keda_config.max_replica_count;
  triggers = triggers_or_default cluster namespace keda_config.triggers;
}

-- A call on the ScaledObject of that namespace and name.
pub data KedaCall : Type 0 where
  get_scaled_object : String → String → KedaCall
  patch_scaled_object : String → String → ScaledObject → KedaCall
  create_scaled_object : String → String → ScaledObject → KedaCall
  delete_scaled_object : String → String → KedaCall

-- The API server, and `serde_json::from_value` into a `DynamicObject`, which answers with the text of its
-- error or with the object that is sent.
pub record KedaEnv : Type 0 where
  pub answer : List KedaCall → KedaCall → Result KubeError (Unit {0})
  pub from_value : ScaledObject → Result String ScaledObject

abbrev pub serialized : Result String ScaledObject → Result OperatorError ScaledObject
serialized (ok object) = ok object
serialized (err e) = err (serialization e)

module _ (env : KedaEnv) where
  abbrev attempt : KedaCall → Exec KedaCall (Result KubeError (Unit {0}))
  attempt c = call c (λ before. env.answer before c)

  abbrev write : KedaCall → Exec KedaCall (Unit {0})
  write c = kube c (λ before. env.answer before c)

  unfoldable pub build_keda_scaled_object :
      StreamlineCluster → String → KedaConfig → Result OperatorError ScaledObject
  unfolding scaled_object
  build_keda_scaled_object cluster namespace keda_config =
      serialized (env.from_value (scaled_object cluster namespace keda_config))

  -- Whatever the answer, it is only logged.
  unfoldable pub delete_keda_scaled_object : StreamlineCluster → String → Exec KedaCall (Unit {0})
  unfolding call pure format
  delete_keda_scaled_object cluster namespace = do
    answer ← attempt (delete_scaled_object namespace (scaled_object_name cluster))
    pure tt

  abbrev pub patch_or_create :
      String → String → ScaledObject → Result KubeError (Unit {0}) → Exec KedaCall (Unit {0})
  patch_or_create namespace name object (ok _) = write (patch_scaled_object namespace name object)
  patch_or_create namespace name object (err _) = write (create_scaled_object namespace name object)

  abbrev pub apply_built :
      String → String → Result OperatorError ScaledObject → Exec KedaCall (Unit {0})
  apply_built namespace name (err e) = fail e
  apply_built namespace name (ok object) = do
    existing ← attempt (get_scaled_object namespace name)
    patch_or_create namespace name object existing

  abbrev pub with_keda : StreamlineCluster → String → Option KedaConfig → Exec KedaCall (Unit {0})
  with_keda cluster namespace none =
      fail (configuration "KEDA is enabled but no keda config block was provided")
  with_keda cluster namespace (some keda_config) =
      apply_built namespace (scaled_object_name cluster)
        (build_keda_scaled_object cluster namespace keda_config)

  unfoldable pub reconcile_keda_scaled_object :
      StreamlineCluster → String → ScaleToZeroConfig → Exec KedaCall (Unit {0})
  unfolding delete_keda_scaled_object build_keda_scaled_object fail call kube format
  reconcile_keda_scaled_object cluster namespace config =
      if config.keda_enabled
      then with_keda cluster namespace config.keda
      else delete_keda_scaled_object cluster namespace
