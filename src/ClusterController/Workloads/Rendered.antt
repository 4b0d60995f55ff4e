-- ===== src/ClusterController/Workloads/Rendered.antt =====
-- What the pod of an accepted cluster is given: its environment, and the Secrets of its TLS block.
use streamline_operator.Base.{
  Has, String, Bool, if◌then◌else◌, true, Option, none, some, List, [], ◌∷◌, ◌++◌, ◌≡◌, ◌≢◌, refl,
  ap, subst, inl, inr, ok,
}
use streamline_operator.Crd.Env.{
  EnvVarRef, secret, config_map, resolve_source, resolve_value, resolve_reference, incomplete_ref,
  then_ok,
}
use streamline_operator.Crd.Env
use streamline_operator.Crd.Cluster.{StreamlineCluster, ClusterSpec, ClusterTls}
use streamline_operator.Crd.Env.Shapes.{
  Resolves, literal, from_secret, from_config_map, Resolves-ok,
}
use streamline_operator.Validate.{validate}
use streamline_operator.Validate.Exact.{AllResolve, IsAdmissibleTls, validate_iff}
use streamline_operator.ClusterController.Config.{
  secret_volume, build_config_and_tls_volumes, render_config, tls_section, tls_mount_path,
  tls_ca_mount_path,
}
use streamline_operator.Base.Text.{format, show_ℤ}
use streamline_operator.ClusterController.Workloads.{
  ContainerEnv, ContainerSource, base_env, custom_env, push_env, env_vars, build_env_var_source,
}

-- The container's variable is what the entry asks for: its literal, or a reference to its Secret or
-- ConfigMap key.
pub data IsRenderedAs (env : Env.EnvVar) (c : ContainerEnv) : Type 0 where
  as_literal :
      (v : String)
      → env.value ≡ some v
      → c ≡ record { name = env.name; value = some v; value_from = none }
      → IsRenderedAs env c
  as_secret :
      (name key : String)
      → env.value_from
        ≡ some (record {
          secret_key_ref = some (record { name = name; key = key });
          config_map_key_ref = none;
        })
      → c ≡ record {
        name = env.name;
        value = none;
        value_from = some (ContainerSource.secret_key_ref name key);
      }
      → IsRenderedAs env c
  as_config_map :
      (name key : String)
      → env.value_from
        ≡ some (record {
          secret_key_ref = none;
          config_map_key_ref = some (record { name = name; key = key });
        })
      → c ≡ record {
        name = env.name;
        value = none;
        value_from = some (ContainerSource.config_map_key_ref name key);
      }
      → IsRenderedAs env c

-- Entry by entry, in order.
abbrev pub AreRenderedAs : List Env.EnvVar → List ContainerEnv → Type 0
AreRenderedAs [] [] = Unit {0}
AreRenderedAs (e ∷ es) (c ∷ cs) = IsRenderedAs e c × AreRenderedAs es cs
AreRenderedAs _ _ = ⊥

push_one :
    (env : Env.EnvVar) (r : Option EnvVarRef)
    → Resolves env r
    → (c : ContainerEnv) × (push_env env (resolve_source env) ≡ c ∷ []) × IsRenderedAs env c
unfolding push_env build_env_var_source
push_one env r (literal v a b c) =
    (_, ap (push_env env) (Resolves-ok env (literal v a b c)), as_literal v b (rw b))
push_one env r (from_secret s a b c d e) = (
  _,
  ap (push_env env) (Resolves-ok env (from_secret s a b c d e)),
  as_secret s.name s.key c refl,
)
push_one env r (from_config_map s a b c d e) = (
  _,
  ap (push_env env) (Resolves-ok env (from_config_map s a b c d e)),
  as_config_map s.name s.key c refl,
)

custom_rendered : (es : List Env.EnvVar) → AllResolve es → AreRenderedAs es (custom_env es)
unfolding custom_env
custom_rendered [] h = tt
custom_rendered (e ∷ es) ((r, one), rest) =
    let (c, pushed, is) = push_one e r one in rw pushed (is, custom_rendered es rest)

-- For a spec that the validation accepts, the container's environment is the operator's own variables
-- followed by one variable for each entry of `spec.env`, in order and under its name: its literal, or
-- the reference to the key of the Secret or of the ConfigMap that it names. None is dropped.
pub accepted_env_is_rendered :
    (spec : ClusterSpec)
    → validate spec ≡ ok tt
    → (cs : List ContainerEnv) × (env_vars spec ≡ base_env spec ++ cs) × AreRenderedAs spec.env cs
unfolding env_vars
accepted_env_is_rendered spec h =
    (custom_env spec.env, refl, custom_rendered spec.env ((validate_iff spec).0 h).env)

-- The Secret is a volume of the pod, and that volume is mounted there, read-only.
abbrev pub IsMounted : StreamlineCluster → String → String → Type 0
IsMounted cluster secret_name path =
    (name : String) × Has (record { name = name; source = secret_volume secret_name })
      (build_config_and_tls_volumes cluster).0
    × Has (record { name = name; mount_path = path; read_only = some true })
        (build_config_and_tls_volumes cluster).1

-- The texts that come before the `[tls]` section.
abbrev preamble : StreamlineCluster → List String
preamble cluster =
    "# Managed by streamline-operator. Do not edit.\n"
    ∷ "# Rendered from StreamlineCluster/"
    ∷ cluster.metadata.name_any
    ∷ "\n\n"
    ∷ "[server]\n"
    ∷ "listen_addr = \"0.0.0.0:"
    ∷ show_ℤ cluster.spec.kafka_port
    ∷ "\"\n"
    ∷ "http_addr = \"0.0.0.0:"
    ∷ show_ℤ cluster.spec.http_port
    ∷ "\"\n"
    ∷ "data_dir = \"/data\"\n"
    ∷ "log_level = \""
    ∷ cluster.spec.log_level
    ∷ "\"\n"
    ∷ []

ca_given : (ca : Option String) → ca ≢ none → (s : String) × (ca ≡ some s)
ca_given none h = absurd (h refl)
ca_given (some s) h = (s, refl)

-- The rendered configuration contains the parts, one after the other.
abbrev pub Says : StreamlineCluster → List String → Type 0
Says cluster parts =
    (before after : List String) × (render_config cluster ≡ format (before ++ (parts ++ after)))

render_config-tls :
    (cluster : StreamlineCluster)
    → render_config cluster ≡ format (preamble cluster ++ tls_section cluster.spec.tls)
unfolding render_config
render_config-tls cluster = refl

-- The configuration takes its certificate and key from the directory.
abbrev pub TakesCertificate : StreamlineCluster → String → Type 0
TakesCertificate cluster path = Says cluster (
    "\n[tls]\n" ∷ "enabled = true\n" ∷ "cert = \"" ∷ path ∷ "/tls.crt\"\n" ∷ "key = \"" ∷ path
    ∷ "/tls.key\"\n" ∷ [])

-- The configuration takes the client CA from the directory.
abbrev pub TakesCa : StreamlineCluster → String → Type 0
TakesCa cluster path =
    Says cluster ("require_client_cert = true\n" ∷ "ca_cert = \"" ∷ path ∷ "/ca.crt\"\n" ∷ [])

-- The texts that come after `key`.
abbrev client_section : Bool → List String
client_section mtls =
    if mtls
    then "require_client_cert = true\n" ∷ "ca_cert = \"" ∷ tls_ca_mount_path ∷ "/ca.crt\"\n" ∷ []
    else []

module _ (cluster : StreamlineCluster) (tls : ClusterTls) (given : cluster.spec.tls ≡ some tls)
    (on : tls.enabled ≡ true) where
  takes_certificate : TakesCertificate cluster tls_mount_path
  takes_certificate = (
    preamble cluster,
    client_section tls.mtls_enabled,
    rw (render_config-tls cluster, given, on) refl,
  )

  takes_ca : tls.mtls_enabled ≡ true → TakesCa cluster tls_ca_mount_path
  takes_ca m = (
    preamble cluster
        ++ ("\n[tls]\n" ∷ "enabled = true\n" ∷ "cert = \"" ∷ tls_mount_path ∷ "/tls.crt\"\n"
            ∷ "key = \"" ∷ tls_mount_path ∷ "/tls.key\"\n" ∷ []),
    [],
    rw (render_config-tls cluster, given, on, m) refl,
  )

-- For a cluster whose spec the validation accepts and whose TLS block is enabled, the rendered
-- configuration takes `cert` and `key` from a directory where the Secret that the block names is mounted
-- read-only; and with mTLS it requires client certificates and takes `ca_cert` from a directory where the
-- Secret of the name given for the client CA is mounted read-only.
pub accepted_tls-IsMounted :
    (cluster : StreamlineCluster) (tls : ClusterTls)
    → validate cluster.spec ≡ ok tt
    → cluster.spec.tls ≡ some tls
    → tls.enabled ≡ true
    → TakesCertificate cluster "/etc/streamline-tls"
      × IsMounted cluster tls.secret_name "/etc/streamline-tls"
      × (tls.mtls_enabled ≡ true
          → (ca : String) × (tls.ca_secret_name ≡ some ca)
            × TakesCa cluster "/etc/streamline-tls-ca"
            × IsMounted cluster ca "/etc/streamline-tls-ca")
unfolding build_config_and_tls_volumes
accepted_tls-IsMounted cluster tls h given on =
    elim (subst IsAdmissibleTls given ((validate_iff cluster.spec).0 h).tls) [
      | inl (_, named, has_ca, _) ↦ (
        takes_certificate cluster tls given on,
        ("tls", rw (given, on, named) (inr (inl refl)), rw (given, on, named) (inr (inl refl))),
        λ m.
            let (ca, e) = ca_given tls.ca_secret_name (has_ca m) in
            (
              ca,
              e,
              takes_ca cluster tls given on m,
              (
                "tls-ca",
                rw (given, on, named, m, e) (inr (inr (inl refl))),
                rw (given, on, named, m, e) (inr (inr (inl refl))),
              ),
            ),
      )
      | inr (off, _) ↦ absurd (cc)
    ]
