-- ===== src/ClusterController/Config.antt =====
-- The broker configuration of src/controllers/cluster.rs (`render_config`) and the volumes that carry
-- it into the pod (`build_config_and_tls_volumes`).
use streamline_operator.Base.{
  String, Bool, true, not, ◌&&◌, Option, none, some, List, [], ◌∷◌, if◌then◌else◌,
}
use streamline_operator.Base.Text.{format, is_blank, show_ℤ}
use streamline_operator.Crd.Cluster.{StreamlineCluster, ClusterTls}

abbrev pub config_file_name : String
config_file_name = "streamline.toml"

abbrev pub config_mount_path : String
config_mount_path = "/etc/streamline"

abbrev pub config_file_path : String
config_file_path = "/etc/streamline/streamline.toml"

abbrev pub tls_mount_path : String
tls_mount_path = "/etc/streamline-tls"

abbrev pub tls_ca_mount_path : String
tls_ca_mount_path = "/etc/streamline-tls-ca"

abbrev pub tls_volume_name : String
tls_volume_name = "tls"

abbrev pub tls_ca_volume_name : String
tls_ca_volume_name = "tls-ca"

-- The `[tls]` section, as the texts that are pushed.
abbrev pub tls_section : Option ClusterTls → List String
tls_section none = []
tls_section (some tls) =
    if tls.enabled
    then "\n[tls]\n"
      ∷ "enabled = true\n"
      ∷ "cert = \""
      ∷ tls_mount_path
      ∷ "/tls.crt\"\n"
      ∷ "key = \""
      ∷ tls_mount_path
      ∷ "/tls.key\"\n"
      ∷ (if tls.mtls_enabled
          then "require_client_cert = true\n" ∷ "ca_cert = \"" ∷ tls_ca_mount_path ∷ "/ca.crt\"\n"
            ∷ []
          else [])
    else []

unfoldable pub render_config : StreamlineCluster → String
unfolding format
render_config cluster =
    let spec = cluster.spec in
    format (
      "# Managed by streamline-operator. Do not edit.\n"
      ∷ "# Rendered from StreamlineCluster/"
      ∷ cluster.metadata.name_any
      ∷ "\n\n"
      ∷ "[server]\n"
      ∷ "listen_addr = \"0.0.0.0:"
      ∷ show_ℤ spec.kafka_port
      ∷ "\"\n"
      ∷ "http_addr = \"0.0.0.0:"
      ∷ show_ℤ spec.http_port
      ∷ "\"\n"
      ∷ "data_dir = \"/data\"\n"
      ∷ "log_level = \""
      ∷ spec.log_level
      ∷ "\"\n"
      ∷ tls_section spec.tls)

-- What a volume holds: the ConfigMap of that name, or the Secret of that name with mode 0440.
pub data VolumeSource : Type 0 where
  config_map_volume : String → VolumeSource
  secret_volume : String → VolumeSource

pub record Volume : Type 0 where
  pub name : String
  pub source : VolumeSource

pub record VolumeMount : Type 0 where
  pub name : String
  pub mount_path : String
  pub read_only : Option Bool

abbrev pub secret_mount : String → String → VolumeMount
secret_mount name mount_path = record {
  name = name;
  mount_path = mount_path;
  read_only = some true;
}

abbrev pub ca_volumes : Option String → Bool → List Volume × List VolumeMount
ca_volumes (some ca_secret) true = (
  record { name = tls_ca_volume_name; source = secret_volume ca_secret } ∷ [],
  secret_mount tls_ca_volume_name tls_ca_mount_path ∷ [],
)
ca_volumes _ _ = ([], [])

abbrev pub tls_volumes : Option ClusterTls → List Volume × List VolumeMount
tls_volumes none = ([], [])
tls_volumes (some tls) =
    if tls.enabled && not (is_blank tls.secret_name)
    then (let (volumes, mounts) = ca_volumes tls.ca_secret_name tls.mtls_enabled in
        (
          record { name = tls_volume_name; source = secret_volume tls.secret_name } ∷ volumes,
          secret_mount tls_volume_name tls_mount_path ∷ mounts,
        ))
    else ([], [])

unfoldable pub build_config_and_tls_volumes : StreamlineCluster → List Volume × List VolumeMount
unfolding format
build_config_and_tls_volumes cluster =
    let (volumes, mounts) = tls_volumes cluster.spec.tls in
    (
      record {
        name = "config";
        source = config_map_volume (format (cluster.metadata.name_any ∷ "-config" ∷ []));
      }
          ∷ volumes,
      record { name = "config"; mount_path = config_mount_path; read_only = some true } ∷ mounts,
    )
