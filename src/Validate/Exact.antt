-- ===== src/Validate/Exact.antt =====
-- Which specs `validate` accepts: each group of checks is empty exactly if its part of the spec keeps
-- the rules of that part.
use streamline_operator.Base.{
  append-nil_iff, ℕ, suc, String, true, false, Option, none, some, List, [], ◌∷◌, ◌≡◌, ◌≢◌, ◌↔◌,
  refl, ok, err, Result, arith, ◌⊎◌, ◌||◌,
}
use streamline_operator.Base.Int.{ℤ, pos, ◌≤ℤ◌, eqb_ℤ}
use streamline_operator.Base.Text.{is_blank}
use streamline_operator.Crd.Env.{EnvVar, EnvVarRef, resolve_source}
use streamline_operator.Crd.Env.Shapes.{Resolves, resolve_source_iff}
use streamline_operator.Crd.Cluster.{ClusterSpec, AutoScalingSpec, ClusterTls}
use streamline_operator.Validate.{
  push_if, replicas_errors, port_error, port_errors, env_error, env_errors, rack_enabled,
  scheduling_errors, autoscaling_errors, tls_errors, validation_errors, validate, ok_if_empty,
}

abbrev pub IsPort : ℤ → Type 0
IsPort p = (pos 1 ≤ℤ p) × (p ≤ℤ pos 65535)

-- Every entry resolves to a literal or to a reference.
abbrev pub AllResolve : List EnvVar → Type 0
AllResolve [] = Unit {0}
AllResolve (e ∷ es) = ((r : Option EnvVarRef) × Resolves e r) × AllResolve es

abbrev pub IsOff : Option AutoScalingSpec → Type 0
IsOff none = Unit {0}
IsOff (some a) = a.enabled ≡ false

-- An enabled TLS block names its Secret by more than white space, and with mTLS it gives a name for the CA
-- Secret, be it an empty one; a disabled block asks for no mTLS.
abbrev pub IsAdmissibleTls : Option ClusterTls → Type 0
IsAdmissibleTls none = Unit {0}
IsAdmissibleTls (some t) =
    ((t.enabled ≡ true)
      × (is_blank t.secret_name ≡ false)
      × (t.mtls_enabled ≡ true → t.ca_secret_name ≢ none)
      × (t.insecure_skip_verify ≡ false))
    ⊎ ((t.enabled ≡ false) × (t.mtls_enabled ≡ false))

pub record IsAdmissible (s : ClusterSpec) : Type 0 where
  pub one_replica : s.replicas ≡ pos 1
  pub kafka : IsPort s.kafka_port
  pub http : IsPort s.http_port
  pub raft : IsPort s.raft_port
  pub kafka_http : s.kafka_port ≢ s.http_port
  pub kafka_raft : s.kafka_port ≢ s.raft_port
  pub http_raft : s.http_port ≢ s.raft_port
  pub env : AllResolve s.env
  pub no_affinity : s.pod_anti_affinity ≡ false
  pub no_racks : rack_enabled s.rack_awareness ≡ false
  pub no_tolerations : s.tolerations ≡ []
  pub no_autoscaling : IsOff s.autoscaling
  pub tls : IsAdmissibleTls s.tls

replicas_iff : (s : ClusterSpec) → (replicas_errors s ≡ []) ↔ (s.replicas ≡ pos 1)
unfolding replicas_errors
replicas_iff s = (λ h. ground arith, λ h. rw h)

IsPort-iff : (name : String) (p : ℤ) → (port_error name p ≡ []) ↔ IsPort p
unfolding port_error
IsPort-iff name p = (λ h. ground arith, λ h. ground arith)

abbrev PortsFit : ClusterSpec → Type 0
PortsFit s =
    IsPort s.kafka_port
    × IsPort s.http_port
    × IsPort s.raft_port
    × (s.kafka_port ≢ s.http_port)
    × (s.kafka_port ≢ s.raft_port)
    × (s.http_port ≢ s.raft_port)

distinct_iff :
    (a b c : ℤ) (m : String)
    → (push_if (eqb_ℤ a b || (eqb_ℤ a c || eqb_ℤ b c)) m ≡ []) ↔ ((a ≢ b) × (a ≢ c) × (b ≢ c))
distinct_iff a b c m = (λ h. ground arith, λ h. ground arith)

ports_iff : (s : ClusterSpec) → (port_errors s ≡ []) ↔ PortsFit s
unfolding port_errors
ports_iff s = (forward, backward)
  where
    forward : port_errors s ≡ [] → PortsFit s
    forward h =
        let (k, h1) = (append-nil_iff (port_error "kafkaPort" s.kafka_port) _).0 h in
        let (p, h2) = (append-nil_iff (port_error "httpPort" s.http_port) _).0 h1 in
        let (r, h3) = (append-nil_iff (port_error "raftPort" s.raft_port) _).0 h2 in
        let (x, y, z) = (distinct_iff s.kafka_port s.http_port s.raft_port _).0 h3 in
        ((IsPort-iff _ _).0 k, (IsPort-iff _ _).0 p, (IsPort-iff _ _).0 r, x, y, z)

    backward : PortsFit s → port_errors s ≡ []
    backward h = (append-nil_iff (port_error "kafkaPort" s.kafka_port) _).1 (
      (IsPort-iff _ _).1 h.0,
      (append-nil_iff (port_error "httpPort" s.http_port) _).1 (
        (IsPort-iff _ _).1 h.1,
        (append-nil_iff (port_error "raftPort" s.raft_port) _).1 (
          (IsPort-iff _ _).1 h.2,
          (distinct_iff s.kafka_port s.http_port s.raft_port _).1 (h.3, h.4, h.5),
        ),
      ),
    )

env_error_iff :
    (i : ℕ) (e : EnvVar) → (env_error i e ≡ []) ↔ ((r : Option EnvVarRef) × Resolves e r)
unfolding env_error
env_error_iff i e =
    (forward (resolve_source e) refl, λ h. rw ((resolve_source_iff e h.0).1 h.1, env_error))
  where
    forward :
        (x : Result String (Option EnvVarRef))
        → resolve_source e ≡ x
        → env_error i e ≡ []
        → (r : Option EnvVarRef) × Resolves e r
    forward (ok r) q h = (r, (resolve_source_iff e r).0 q)
    forward (err m) q h = absurd (cc (rw (q, env_error) at h))

env_iff : (i : ℕ) (es : List EnvVar) → (env_errors i es ≡ []) ↔ AllResolve es
unfolding env_errors
env_iff i [] = (λ h. tt, λ h. refl)
env_iff i (e ∷ es) = (
  λ h.
      let both = (append-nil_iff (env_error i e) (env_errors (suc i) es)).0 h in
      ((env_error_iff i e).0 both.0, (env_iff (suc i) es).0 both.1),
  λ h.
      (append-nil_iff (env_error i e) (env_errors (suc i) es)).1
        ((env_error_iff i e).1 h.0, (env_iff (suc i) es).1 h.1),
)

scheduling_iff :
    (s : ClusterSpec)
    → (scheduling_errors s ≡ []) ↔ (
        (s.pod_anti_affinity ≡ false)
        × (rack_enabled s.rack_awareness ≡ false)
        × (s.tolerations ≡ []))
unfolding scheduling_errors
scheduling_iff s = (λ h. ground arith, λ h. rw (h.0, h.1, h.2))

autoscaling_iff : (a : Option AutoScalingSpec) → (autoscaling_errors a ≡ []) ↔ IsOff a
unfolding autoscaling_errors
autoscaling_iff none = (λ h. tt, λ h. refl)
autoscaling_iff (some a) = (λ h. ground arith, λ h. rw h)

tls_iff : (t : Option ClusterTls) → (tls_errors t ≡ []) ↔ IsAdmissibleTls t
unfolding tls_errors
tls_iff none = (λ h. tt, λ h. refl)
tls_iff (some t) = (λ h. ground arith, λ h. ground arith)

validate_iff_errors : (s : ClusterSpec) → (validate s ≡ ok tt) ↔ (validation_errors s ≡ [])
unfolding validate
validate_iff_errors s = (accepted (validation_errors s), λ h. rw h)
  where
    accepted : (es : List String) → ok_if_empty es ≡ ok tt → es ≡ []
    accepted [] h = refl
    accepted (e ∷ es) h = cc

accepted-IsAdmissible : (s : ClusterSpec) → validation_errors s ≡ [] → IsAdmissible s
unfolding validation_errors
accepted-IsAdmissible s h =
    let (r, h1) = (append-nil_iff (replicas_errors s) _).0 h in
    let (p, h2) = (append-nil_iff (port_errors s) _).0 h1 in
    let (e, h3) = (append-nil_iff (env_errors 0 s.env) _).0 h2 in
    let (c, h4) = (append-nil_iff (scheduling_errors s) _).0 h3 in
    let (a, t) = (append-nil_iff (autoscaling_errors s.autoscaling) _).0 h4 in
    let ports = (ports_iff s).0 p in
    let scheduling = (scheduling_iff s).0 c in
    record {
      one_replica = (replicas_iff s).0 r;
      kafka = ports.0;
      http = ports.1;
      raft = ports.2;
      kafka_http = ports.3;
      kafka_raft = ports.4;
      http_raft = ports.5;
      env = (env_iff 0 s.env).0 e;
      no_affinity = scheduling.0;
      no_racks = scheduling.1;
      no_tolerations = scheduling.2;
      no_autoscaling = (autoscaling_iff s.autoscaling).0 a;
      tls = (tls_iff s.tls).0 t;
    }

IsAdmissible-accepted : (s : ClusterSpec) → IsAdmissible s → validation_errors s ≡ []
unfolding validation_errors
IsAdmissible-accepted s h = (append-nil_iff (replicas_errors s) _).1 (
  (replicas_iff s).1 h.one_replica,
  (append-nil_iff (port_errors s) _).1 (
    (ports_iff s).1 (h.kafka, h.http, h.raft, h.kafka_http, h.kafka_raft, h.http_raft),
    (append-nil_iff (env_errors 0 s.env) _).1 (
      (env_iff 0 s.env).1 h.env,
      (append-nil_iff (scheduling_errors s) _).1 (
        (scheduling_iff s).1 (h.no_affinity, h.no_racks, h.no_tolerations),
        (append-nil_iff (autoscaling_errors s.autoscaling) _).1
            ((autoscaling_iff s.autoscaling).1 h.no_autoscaling, (tls_iff s.tls).1 h.tls),
      ),
    ),
  ),
)

-- `validate` accepts a spec exactly if it has one replica, three distinct ports within 1-65535,
-- environment entries that all resolve, no affinity, rack awareness, tolerations or enabled autoscaling,
-- and, where it has a TLS block, one that is enabled, whose Secret's name is not blank, that with mTLS
-- gives some CA Secret's name (which may be blank), and that skips no verification, or one that is
-- disabled without mTLS.
pub validate_iff : (s : ClusterSpec) → (validate s ≡ ok tt) ↔ IsAdmissible s
validate_iff s = (
  λ h. accepted-IsAdmissible s ((validate_iff_errors s).0 h),
  λ h. (validate_iff_errors s).1 (IsAdmissible-accepted s h),
)
