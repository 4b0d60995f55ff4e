-- ===== src/Validate.antt =====
-- `ClusterSpec::validate` of src/crd/cluster.rs. Each group of checks returns what it pushes onto
-- `errors`, and the groups are put together in the order of the source.
pub mod Exact
use streamline_operator.Base.{
  ℕ, zero, suc, String, Bool, true, false, not, ◌&&◌, ◌||◌, Option, none, some, List, [], ◌∷◌, ◌++◌,
  Result, ok, err, length, is_empty, is_some, ltb, if◌then◌else◌,
}
use streamline_operator.Base.Int.{ℤ, pos, ltb_ℤ, eqb_ℤ}
use streamline_operator.Base.Text.{format, join, is_blank, show_ℕ, show_ℤ}
use streamline_operator.Crd.Env.{EnvVar, resolve_source}
use streamline_operator.Crd.Cluster.{ClusterSpec, AutoScalingSpec, ClusterTls, RackAwareness}
use streamline_operator.Upgrade.{remediation_for, legacy_cluster_replicas, legacy_pod_anti_affinity}

-- `if test { errors.push(message) }`
abbrev pub push_if : Bool → String → List String
push_if test message = if test then message ∷ [] else []

unfoldable pub replicas_errors : ClusterSpec → List String
unfolding format
replicas_errors s =
    push_if (ltb_ℤ s.replicas (pos 1))
      (format ("replicas must be >= 1, got " ∷ show_ℤ s.replicas ∷ []))
    ++ push_if (ltb_ℤ (pos 1) s.replicas) (
        format (
          "replicas="
          ∷ show_ℤ s.replicas
          ∷ " is not supported: the operator does not bootstrap Streamline raft peers yet (set replicas: 1), so "
          ∷ show_ℤ s.replicas
          ∷ " independent brokers would be rendered instead of a quorum."
          ∷ remediation_for "spec.replicas" (eqb_ℤ s.replicas legacy_cluster_replicas)
          ∷ []))

unfoldable pub port_error : String → ℤ → List String
unfolding format
port_error name port =
    push_if (ltb_ℤ port (pos 1) || ltb_ℤ (pos 65535) port)
      (format (name ∷ " must be 1-65535, got " ∷ show_ℤ port ∷ []))

unfoldable pub port_errors : ClusterSpec → List String
unfolding port_error
port_errors s =
    port_error "kafkaPort" s.kafka_port
    ++ (port_error "httpPort" s.http_port
        ++ (port_error "raftPort" s.raft_port
            ++ push_if
                (eqb_ℤ s.kafka_port s.http_port
                  || (eqb_ℤ s.kafka_port s.raft_port || eqb_ℤ s.http_port s.raft_port))
                "kafkaPort, httpPort, and raftPort must all be different"))

-- One round of the loop over `self.env.iter().enumerate()`.
unfoldable pub env_error : ℕ → EnvVar → List String
unfolding format
env_error index env = elim (resolve_source env) [
  | ok _ ↦ []
  | err reason ↦
      (let named : String = if is_blank env.name then "" else format (" (" ∷ env.name ∷ ")" ∷ []) in
        format ("env[" ∷ show_ℕ index ∷ "]" ∷ named ∷ ": " ∷ reason ∷ []))
      ∷ []
]

unfoldable pub env_errors : ℕ → List EnvVar → List String
unfolding env_error
env_errors index [] = []
env_errors index (env ∷ rest) = env_error index env ++ env_errors (suc index) rest

abbrev pub rack_enabled : Option RackAwareness → Bool
rack_enabled none = false
rack_enabled (some rack) = rack.enabled

unfoldable pub scheduling_errors : ClusterSpec → List String
unfolding format
scheduling_errors s =
    push_if s.pod_anti_affinity (
      format (
        "podAntiAffinity is not supported: the operator renders no affinity rules onto the broker pod template (omit it or set it to false; with replicas capped at 1 there is no second pod to spread)."
        ∷ remediation_for "spec.podAntiAffinity"
            (if s.pod_anti_affinity then legacy_pod_anti_affinity else not legacy_pod_anti_affinity)
        ∷ []))
    ++ (push_if (rack_enabled s.rack_awareness)
          "rackAwareness.enabled is not supported: the operator renders no topology spread constraints or rack labelling"
        ++ push_if (not (is_empty s.tolerations)) (
            format (
              "tolerations are not supported: the operator renders none onto the broker pod template, so the "
              ∷ show_ℕ (length s.tolerations)
              ∷ " declared here would be silently dropped (nodeSelector is rendered and can be used instead)"
              ∷ [])))

enabled_autoscaling_errors : AutoScalingSpec → List String
unfolding format
enabled_autoscaling_errors a =
    "autoscaling.enabled is not supported: the operator only renders a standalone broker and cannot safely scale it above one replica"
    ∷ (push_if (ltb_ℤ a.min_replicas (pos 1))
          (format ("autoscaling.minReplicas must be >= 1, got " ∷ show_ℤ a.min_replicas ∷ []))
        ++ (push_if (ltb_ℤ a.max_replicas a.min_replicas) (
              format (
                "autoscaling.maxReplicas ("
                ∷ show_ℤ a.max_replicas
                ∷ ") must be >= minReplicas ("
                ∷ show_ℤ a.min_replicas
                ∷ ")"
                ∷ []))
            ++ push_if
                (ltb_ℤ a.target_cpu_utilization (pos 1) || ltb_ℤ (pos 100) a.target_cpu_utilization)
                (format (
                  "autoscaling.targetCpuUtilization must be 1-100, got "
                  ∷ show_ℤ a.target_cpu_utilization
                  ∷ []))))

unfoldable pub autoscaling_errors : Option AutoScalingSpec → List String
unfolding enabled_autoscaling_errors
autoscaling_errors none = []
autoscaling_errors (some a) = if a.enabled then enabled_autoscaling_errors a else []

unfoldable pub tls_errors : Option ClusterTls → List String
tls_errors none = []
tls_errors (some t) =
    if t.enabled
    then push_if (is_blank t.secret_name)
        "tls.secretName is required when tls.enabled is true: the operator mounts that Secret at /etc/streamline-tls"
      ++ (push_if (t.mtls_enabled && not (is_some t.ca_secret_name))
            "tls.caSecretName is required when tls.mtlsEnabled is true: client certificates cannot be verified without a CA bundle"
          ++ push_if t.insecure_skip_verify
              "tls.insecureSkipVerify is not supported: it is a client-side setting and the operator will not render a broker configuration that disables certificate verification")
    else push_if t.mtls_enabled "tls.mtlsEnabled requires tls.enabled to be true"

unfoldable pub validation_errors : ClusterSpec → List String
validation_errors s =
    replicas_errors s
    ++ (port_errors s
        ++ (env_errors 0 s.env
            ++ (scheduling_errors s ++ (autoscaling_errors s.autoscaling ++ tls_errors s.tls))))

abbrev pub ok_if_empty : List String → Result (List String) (Unit {0})
ok_if_empty [] = ok tt
ok_if_empty (e ∷ es) = err (e ∷ es)

-- `ClusterSpec::validate`
unfoldable pub validate : ClusterSpec → Result (List String) (Unit {0})
validate s = ok_if_empty (validation_errors s)
