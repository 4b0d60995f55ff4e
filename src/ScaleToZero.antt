-- ===== src/ScaleToZero.antt =====
-- src/controllers/scale_to_zero.rs: the configuration, the snapshot of a cluster's activity, the decision
-- on it (`evaluate`) and the call that carries it out (`apply_scale_action`). Nothing in the repository
-- calls them in turn: they are part of the operator's public interface.
pub mod Exact
pub mod Keda
use streamline_operator.Base.{
  ℕ, ◌-◌, String, Bool, true, false, not, ◌&&◌, Option, none, some, List, [], ◌∷◌, Result, ltb, leb,
  ◌==◌, if◌then◌else◌,
}
use streamline_operator.Base.Int.{ℤ, pos, eqb_ℤ, ◌-ℤ◌, as_i64, as_u64, pos_part}
use streamline_operator.Base.Float.{Floats}
use streamline_operator.Base.Text.{format, show_ℕ}
use streamline_operator.Crd.Cluster.{StreamlineCluster}
use streamline_operator.Runtime.{KubeError, Exec, pure, kube}
use streamline_operator.ClusterController.Workloads.{Entries}

pub record KedaTrigger : Type 0 where
  pub type : String
  pub metadata : Entries

pub record KedaConfig : Type 0 where
  pub polling_interval : ℤ
  pub cooldown_period : ℤ
  pub min_replica_count : ℤ
  pub max_replica_count : ℤ
  pub triggers : List KedaTrigger

pub record ScaleToZeroConfig : Type 0 where
  pub enabled : Bool
  pub idle_timeout_seconds : ℕ
  pub min_active_replicas : ℤ
  pub cooldown_seconds : ℕ
  pub keda_enabled : Bool
  pub keda : Option KedaConfig
  pub polling_interval_seconds : ℕ

abbrev pub default_idle_timeout_seconds : ℕ
default_idle_timeout_seconds = 300

abbrev pub default_min_active_replicas : ℤ
default_min_active_replicas = pos 1

abbrev pub default_cooldown_seconds : ℕ
default_cooldown_seconds = 120

abbrev pub default_polling_interval_seconds : ℕ
default_polling_interval_seconds = 30

abbrev pub default_keda_polling_interval : ℤ
default_keda_polling_interval = pos 30

abbrev pub default_keda_cooldown_period : ℤ
default_keda_cooldown_period = pos 300

abbrev pub default_keda_max_replicas : ℤ
default_keda_max_replicas = pos 10

-- What `{}` parses to.
abbrev pub empty_config : ScaleToZeroConfig
empty_config = record {
  enabled = false;
  idle_timeout_seconds = default_idle_timeout_seconds;
  min_active_replicas = default_min_active_replicas;
  cooldown_seconds = default_cooldown_seconds;
  keda_enabled = false;
  keda = none;
  polling_interval_seconds = default_polling_interval_seconds;
}

abbrev pub empty_keda : KedaConfig
empty_keda = record {
  polling_interval = default_keda_polling_interval;
  cooldown_period = default_keda_cooldown_period;
  min_replica_count = pos 0;
  max_replica_count = default_keda_max_replicas;
  triggers = [];
}

pub data ScaleAction : Type 0 where
  no_change scale_to_zero activate in_cooldown : ScaleAction

pub record ScaleToZeroAction : Type 0 where
  pub action : ScaleAction
  pub reason : String
  pub target_replicas : ℤ
  pub timestamp : String

-- `Utc::now()`: its seconds since the epoch and its RFC 3339 text.
pub record Now : Type 0 where
  pub epoch : ℤ
  pub rfc3339 : String

-- A call on the StatefulSet of that namespace and name.
pub data ScaleCall : Type 0 where
  patch_replicas : String → String → ℤ → ScaleCall

abbrev changes : ScaleAction → Bool
changes no_change = false
changes in_cooldown = false
changes scale_to_zero = true
changes activate = true

unfoldable pub apply_scale_action :
    (List ScaleCall → ScaleCall → Result KubeError (Unit {0}))
    → StreamlineCluster
    → String
    → ScaleToZeroAction
    → Exec ScaleCall (Unit {0})
apply_scale_action server cluster namespace action =
    let patch = patch_replicas namespace cluster.metadata.name_any action.target_replicas in
    if changes action.action then kube patch (λ before. server before patch) else pure tt

-- The seconds of the cooldown that are left, where the last scale-up is within it.
abbrev pub cooling : ℤ → ℕ → Option ℕ → Option ℕ
cooling now cooldown none = none
cooling now cooldown (some last_up) =
    let elapsed = as_u64 now - last_up in
    if ltb elapsed cooldown then some (cooldown - elapsed) else none

module _ (floats : Floats) where
  pub record ClusterActivitySnapshot : Type 0 where
    pub cluster_name : String
    pub namespace : String
    pub messages_per_second : floats.F64
    pub bytes_per_second : floats.F64
    pub active_connections : ℕ
    pub consumer_lag : ℤ
    pub last_activity_at : String
    pub idle_duration_seconds : ℕ
    pub is_idle : Bool

  -- What `evaluate` does once the activation from zero is ruled out.
  abbrev pub evaluate_running :
      Now → ClusterActivitySnapshot → ScaleToZeroConfig → ℤ → Option ℕ → ScaleToZeroAction
  evaluate_running now snapshot config current_replicas (some remaining) = record {
    action = in_cooldown;
    reason = format ("Within cooldown period (" ∷ show_ℕ remaining ∷ "s remaining)" ∷ []);
    target_replicas = current_replicas;
    timestamp = now.rfc3339;
  }
  evaluate_running now snapshot config current_replicas none =
      if snapshot.is_idle && leb config.idle_timeout_seconds snapshot.idle_duration_seconds
      then record {
        action = scale_to_zero;
        reason = format (
            "Cluster idle for "
            ∷ show_ℕ snapshot.idle_duration_seconds
            ∷ "s (threshold: "
            ∷ show_ℕ config.idle_timeout_seconds
            ∷ "s)"
            ∷ []);
        target_replicas = pos 0;
        timestamp = now.rfc3339;
      }
      else record {
        action = no_change;
        reason = "Cluster is active or within idle threshold";
        target_replicas = current_replicas;
        timestamp = now.rfc3339;
      }

  unfoldable pub evaluate :
      Now → ClusterActivitySnapshot → ScaleToZeroConfig → ℤ → Option ℕ → ScaleToZeroAction
  evaluate now snapshot config current_replicas last_scale_up_epoch =
      if not config.enabled
      then record {
        action = no_change;
        reason = "Scale-to-zero is disabled";
        target_replicas = current_replicas;
        timestamp = now.rfc3339;
      }
      else if eqb_ℤ current_replicas (pos 0) && not snapshot.is_idle
      then record {
        action = activate;
        reason = format (
            "Activity detected (connections="
            ∷ show_ℕ snapshot.active_connections
            ∷ ", mps="
            ∷ floats.show_one snapshot.messages_per_second
            ∷ "); activating from zero"
            ∷ []);
        target_replicas = config.min_active_replicas;
        timestamp = now.rfc3339;
      }
      else evaluate_running now snapshot config current_replicas
          (cooling now.epoch config.cooldown_seconds last_scale_up_epoch)

  -- `rfc3339_of` renders seconds since the epoch, as chrono does.
  unfoldable pub build_activity_snapshot :
      Now
      → (ℤ → String)
      → String
      → String
      → floats.F64
      → floats.F64
      → ℕ
      → ℤ
      → ℤ
      → ℕ
      → ClusterActivitySnapshot
  build_activity_snapshot now rfc3339_of cluster_name namespace mps bps connections lag last
        timeout =
      let idle_duration = pos_part (as_i64 (now.epoch -ℤ last)) in
      record {
        cluster_name = cluster_name;
        namespace = namespace;
        messages_per_second = mps;
        bytes_per_second = bps;
        active_connections = connections;
        consumer_lag = lag;
        last_activity_at = rfc3339_of last;
        idle_duration_seconds = idle_duration;
        is_idle =
            floats.eqb mps (floats.literal 0 1) && connections == 0 && leb timeout idle_duration;
      }
