-- ===== src/Tests/Clusters.antt =====
-- The theorems on clusters, each at a concrete input.
use streamline_operator.Base.{
  String, true, false, none, some, List, [], ◌∷◌, ◌++◌, ◌≡◌, ◌↔◌, refl, ok, err,
}
use streamline_operator.Base.Int.{pos}
use streamline_operator.Base.Text.{is_blank}
use streamline_operator.Runtime.Traces.{All}
use streamline_operator.Crd.Meta.{is_deleting}
use streamline_operator.Crd.Env.{EnvVar, resolve_source}
use streamline_operator.Crd.Env.Shapes.{Resolves, resolve_source_iff}
use streamline_operator.Crd.Cluster.{StreamlineCluster, ClusterSpec, ClusterTls, default_spec}
use streamline_operator.Base.Text.{format}
use streamline_operator.Validate.{
  validate, validation_errors, replicas_errors, port_errors, env_errors, scheduling_errors,
  autoscaling_errors, tls_errors,
}
use streamline_operator.Validate.Exact.{IsAdmissible, validate_iff}
use streamline_operator.Tests.{ready_cluster, idle}
use streamline_operator.Autoscaling.{derived_default}
use streamline_operator.ClusterController.Addresses.{IsLinked, rendered-IsLinked}
use streamline_operator.ClusterController.Workloads.{ContainerEnv, env_vars, base_env}
use streamline_operator.ClusterController.Workloads.Rendered.{
  AreRenderedAs, IsMounted, TakesCertificate, TakesCa, accepted_env_is_rendered,
  accepted_tls-IsMounted, TakesCertificate, TakesCa,
}
use streamline_operator.ClusterController.Statuses.{invalid_status, observed_status}
use streamline_operator.ClusterController.Statuses.Stable
use streamline_operator.ClusterController.Statuses.Stable.{cluster_statuses_again}
use streamline_operator.ClusterController.Statuses.Coherent.{IsCoherent, observed_status-IsCoherent}
use streamline_operator.ClusterController.Calls.{delete_hpa_call, ClusterEnv}
use streamline_operator.ClusterController.Reconcile.{reconcile, desired_hpa_config, is_ok}
use streamline_operator.ClusterController.Reconcile.FailClosed.{
  IsRejectionCall, rejected_spec_fails_closed,
}
use streamline_operator.ClusterController.Reconcile.Teardown.{IsGuarded}
use streamline_operator.ClusterController.Reconcile.Unscaled.{
  workloads_after_teardown, hpa_never_desired,
}

abbrev cluster_env : ClusterEnv
cluster_env = record {
  write = λ before c. ok tt;
  claims = λ before namespace selector. ok [];
  pods = λ before namespace selector. ok [];
  now = λ before. "2025-01-01T00:00:00Z";
  elapsed_ms = λ before. 7;
}

-- Encryption in both directions, and one literal in the environment.
abbrev secured : ClusterTls
secured = record {
  enabled = true;
  secret_name = "main-tls";
  mtls_enabled = true;
  ca_secret_name = some "clients-ca";
  insecure_skip_verify = false;
}

abbrev secured_spec : ClusterSpec
secured_spec = record default_spec {
  tls = some secured;
  env = record { name = "RUST_LOG"; value = some "debug"; value_from = none } ∷ [];
}

abbrev secured_cluster : StreamlineCluster
secured_cluster = record ready_cluster { spec = secured_spec }

-- Three replicas: the validation rejects them.
abbrev rejected_cluster : StreamlineCluster
rejected_cluster = record ready_cluster { spec = record default_spec { replicas = pos 3 } }

secured_accepted : validate secured_spec ≡ ok tt
unfolding validate validation_errors replicas_errors port_errors env_errors resolve_source is_blank
    scheduling_errors autoscaling_errors tls_errors
secured_accepted = refl

rejection : (errors : List String) × (validate rejected_cluster.spec ≡ err errors)
unfolding validate validation_errors replicas_errors port_errors env_errors resolve_source is_blank
    scheduling_errors autoscaling_errors tls_errors
rejection = (_, refl)

rejected_live : is_deleting rejected_cluster.metadata ≡ false
unfolding is_deleting
rejected_live = refl

validate_iff_example : (validate secured_spec ≡ ok tt) ↔ IsAdmissible secured_spec
validate_iff_example = validate_iff secured_spec

workloads_after_teardown_example :
    IsGuarded cluster_env
      (delete_hpa_call "shop" "main-hpa")
      (reconcile cluster_env secured_cluster idle).1.trace
unfolding format
workloads_after_teardown_example = workloads_after_teardown cluster_env secured_cluster idle refl

rejected_spec_fails_closed_example :
    All (IsRejectionCall rejected_cluster) (reconcile cluster_env rejected_cluster idle).1.trace
rejected_spec_fails_closed_example =
    rejected_spec_fails_closed cluster_env rejected_cluster rejection.0 idle rejection.1
      rejected_live refl

hpa_never_desired_example :
    (desired_hpa_config secured_spec.autoscaling (is_ok (validate secured_spec))).enabled ≡ false
hpa_never_desired_example = hpa_never_desired secured_spec

observed_status-IsCoherent_example :
    IsCoherent (observed_status "11:00" ready_cluster "shop" (pos 2)) (pos 1) (pos 2)
observed_status-IsCoherent_example = observed_status-IsCoherent "11:00" ready_cluster "shop" (pos 2)

cluster_statuses_again_example :
    (invalid_status "12:00"
        (Stable.published ready_cluster (invalid_status "11:00" ready_cluster "broken"))
        "broken"
      ≡ invalid_status "11:00" ready_cluster "broken")
    × (observed_status "12:00"
          (Stable.published ready_cluster (observed_status "11:00" ready_cluster "shop" (pos 1)))
          "shop"
          (pos 1)
        ≡ observed_status "11:00" ready_cluster "shop" (pos 1))
cluster_statuses_again_example =
    cluster_statuses_again "11:00" "12:00" ready_cluster "broken" "shop" (pos 1)

accepted_env_is_rendered_example :
    (cs : List ContainerEnv) × (env_vars secured_spec ≡ base_env secured_spec ++ cs)
    × AreRenderedAs secured_spec.env cs
accepted_env_is_rendered_example = accepted_env_is_rendered secured_spec secured_accepted

accepted_tls-IsMounted_example :
    TakesCertificate secured_cluster "/etc/streamline-tls"
    × IsMounted secured_cluster "main-tls" "/etc/streamline-tls"
    × (true ≡ true
        → (ca : String) × (some "clients-ca" ≡ some ca)
          × TakesCa secured_cluster "/etc/streamline-tls-ca"
          × IsMounted secured_cluster ca "/etc/streamline-tls-ca")
accepted_tls-IsMounted_example =
    accepted_tls-IsMounted secured_cluster secured secured_accepted refl refl

abbrev both_given : EnvVar
both_given = record { name = "RUST_LOG"; value = some "debug"; value_from = none }

resolve_source_iff_example : (resolve_source both_given ≡ ok none) ↔ Resolves both_given none
resolve_source_iff_example = resolve_source_iff both_given none

rendered-IsLinked_example : IsLinked ready_cluster "shop" derived_default
rendered-IsLinked_example = rendered-IsLinked ready_cluster "shop" derived_default
