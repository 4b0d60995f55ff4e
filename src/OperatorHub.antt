-- ===== src/OperatorHub.antt =====
-- src/controllers/operator_hub.rs: the registry of companion operators. The two maps stand behind
-- separate locks, so that an operation which takes them one after the other is several steps: the
-- checks of `install` and its insertion are functions of their own. `now` stands for
-- `Utc::now().to_rfc3339()`.
pub mod Capacity
pub mod Installs
pub mod Listings
pub mod Updates
use streamline_operator.Base.{
  ℕ, zero, suc, String, Bool, true, false, not, ◌&&◌, Option, none, some, List, [], ◌∷◌, ◌++◌,
  Result, ok, err, length, is_some, leb, str_eq, if◌then◌else◌,
}
use streamline_operator.Base.Text.{format, show_ℕ}
use streamline_operator.Base.Map.{lookup, insert, remove}

pub record HubConfig : Type 0 where
  pub registry_url : String
  pub auto_update : Bool
  pub max_installed : ℕ
  pub require_verified : Bool

-- `HubConfig::default()`
abbrev pub default_config : HubConfig
default_config = record {
  registry_url = "https://hub.streamline.dev/operators";
  auto_update = false;
  max_installed = 50;
  require_verified = false;
}

pub data OperatorCategory : Type 0 where
  database cache message_queue monitoring storage networking security : OperatorCategory
  custom : String → OperatorCategory

pub data IntegrationType : Type 0 where
  source sink sidecar standalone : IntegrationType

-- The rating, an f64 that nothing computes with, is its text.
pub record HubOperator : Type 0 where
  pub name : String
  pub version : String
  pub description : String
  pub category : OperatorCategory
  pub author : String
  pub verified : Bool
  pub downloads : ℕ
  pub rating : String
  pub crds : List String
  pub streamline_integration : IntegrationType
  pub min_k8s_version : String
  pub published_at : String

pub data InstallStatus : Type 0 where
  installing running upgrading removing : InstallStatus
  failed : String → InstallStatus

pub record InstalledOperator : Type 0 where
  pub name : String
  pub version : String
  pub namespace : String
  pub status : InstallStatus
  pub installed_at : String
  pub last_reconcile_at : Option String

-- `OperatorHub`
pub record Hub : Type 0 where
  pub operators : List (String × HubOperator)
  pub installed : List (String × InstalledOperator)
  pub config : HubConfig

abbrev pub bundled_operators : List (String × String × String)
bundled_operators =
    ("postgresql", "5.0.0", "PostgreSQL operator for CDC source integration")
    ∷ ("redis", "7.0.0", "Redis operator for cache-aside streaming patterns")
    ∷ ("elasticsearch", "8.0.0", "Elasticsearch operator for search sink integration")
    ∷ ("minio", "5.0.0", "MinIO operator for S3-compatible tiered storage")
    ∷ ("prometheus", "0.70.0", "Prometheus operator for metrics collection")
    ∷ []

unfoldable pub category_of : String → OperatorCategory
category_of name =
    if str_eq name "postgresql"
    then database
    else if str_eq name "redis"
    then cache
    else if str_eq name "elasticsearch"
    then storage
    else if str_eq name "minio"
    then storage
    else if str_eq name "prometheus"
    then monitoring
    else custom name

unfoldable pub integration_of : String → IntegrationType
integration_of name =
    if str_eq name "postgresql"
    then source
    else if str_eq name "redis"
    then sidecar
    else if str_eq name "elasticsearch"
    then sink
    else if str_eq name "minio"
    then standalone
    else if str_eq name "prometheus"
    then sidecar
    else standalone

abbrev pub bundled : String → String → String → HubOperator
bundled name version description = record {
  name = name;
  version = version;
  description = description;
  category = category_of name;
  author = "streamline";
  verified = true;
  downloads = 0;
  rating = "0.0";
  crds = format (name ∷ "s.streamline.dev" ∷ []) ∷ [];
  streamline_integration = integration_of name;
  min_k8s_version = "1.26";
  published_at = "2025-01-01T00:00:00Z";
}

-- The loop of `new`.
unfoldable pub seeded :
    List (String × HubOperator) → List (String × String × String) → List (String × HubOperator)
unfolding insert
seeded operators [] = operators
seeded operators ((name, version, description) ∷ rest) =
    seeded (insert name (bundled name version description) operators) rest

-- `OperatorHub::new`
unfoldable pub new_hub : HubConfig → Hub
unfolding seeded
new_hub config = record { operators = seeded [] bundled_operators; installed = []; config = config }

-- The checks on what the registry holds.
unfoldable pub known : HubConfig → String → Option HubOperator → Result String HubOperator
unfolding format
known config name none = err (format ("operator '" ∷ name ∷ "' not found in hub" ∷ []))
known config name (some op) =
    if config.require_verified && not op.verified
    then err (format ("operator '" ∷ name ∷ "' is not verified" ∷ []))
    else ok op

-- The checks on what is installed.
unfoldable pub has_room :
    HubConfig → List (String × InstalledOperator) → String → Result String (Unit {0})
unfolding format
has_room config installed name =
    if leb config.max_installed (length installed)
    then err
        (format ("maximum installed operators (" ∷ show_ℕ config.max_installed ∷ ") reached" ∷ []))
    else if is_some (lookup name installed)
    then err (format ("operator '" ∷ name ∷ "' is already installed" ∷ []))
    else ok tt

abbrev pub and_then :
    Result String HubOperator → Result String (Unit {0}) → Result String HubOperator
and_then (ok op) (ok _) = ok op
and_then (ok op) (err e) = err e
and_then (err e) room = err e

-- What `install` does before it takes the lock to write.
unfoldable pub install_checks : Hub → String → Result String HubOperator
unfolding known has_room
install_checks hub name =
    and_then (known hub.config name (lookup name hub.operators))
      (has_room hub.config hub.installed name)

abbrev pub installed_operator : String → String → HubOperator → InstalledOperator
installed_operator now name op = record {
  name = name;
  version = op.version;
  namespace = "streamline-system";
  status = running;
  installed_at = now;
  last_reconcile_at = none;
}

-- What it does under that lock.
unfoldable pub commit_install : String → String → HubOperator → Hub → Hub
commit_install now name op hub = record hub {
  installed = insert name (installed_operator now name op) hub.installed;
}

abbrev pub installed_or_not :
    String → String → Result String HubOperator → Hub → Result String InstalledOperator × Hub
installed_or_not now name (ok op) hub =
    (ok (installed_operator now name op), commit_install now name op hub)
installed_or_not now name (err e) hub = (err e, hub)

-- `install`, run without another operation in between.
unfoldable pub install : String → String → Hub → Result String InstalledOperator × Hub
unfolding install_checks commit_install
install now name hub = installed_or_not now name (install_checks hub name) hub

unfoldable pub uninstall : String → Hub → Result String (Unit {0}) × Hub
unfolding format
uninstall name hub =
    if is_some (lookup name hub.installed)
    then (ok tt, record hub { installed = remove name hub.installed })
    else (err (format ("operator '" ∷ name ∷ "' is not installed" ∷ [])), hub)

-- The upgrade of the entry, against the version of the registry.
unfoldable pub upgrade_entry :
    String
    → String
    → String
    → Option InstalledOperator
    → Hub
    → Result String InstalledOperator × Hub
unfolding format
upgrade_entry now name latest none hub =
    (err (format ("operator '" ∷ name ∷ "' is not installed" ∷ [])), hub)
upgrade_entry now name latest (some op) hub =
    if str_eq op.version latest
    then (err (format ("operator '" ∷ name ∷ "' is already at latest version " ∷ latest ∷ [])), hub)
    else (let upgraded = record op {
      version = latest;
      status = running;
      last_reconcile_at = some now;
    } in
        (ok upgraded, record hub { installed = insert name upgraded hub.installed }))

abbrev pub upgrade_to :
    String → String → Option HubOperator → Hub → Result String InstalledOperator × Hub
upgrade_to now name none hub = (err (format ("operator '" ∷ name ∷ "' not found in hub" ∷ [])), hub)
upgrade_to now name (some op) hub =
    upgrade_entry now name op.version (lookup name hub.installed) hub

unfoldable pub upgrade : String → String → Hub → Result String InstalledOperator × Hub
unfolding upgrade_entry format
upgrade now name hub = upgrade_to now name (lookup name hub.operators) hub

abbrev pub update_of :
    String → InstalledOperator → Option HubOperator → List (String × String × String)
update_of name installed none = []
update_of name installed (some available) =
    if str_eq available.version installed.version
    then []
    else (name, installed.version, available.version) ∷ []

abbrev pub updates_in :
    List (String × HubOperator)
    → List (String × InstalledOperator)
    → List (String × String × String)
updates_in operators [] = []
updates_in operators ((name, installed) ∷ rest) =
    update_of name installed (lookup name operators) ++ updates_in operators rest

unfoldable pub check_updates : Hub → List (String × String × String)
check_updates hub = updates_in hub.operators hub.installed

pub record HubStats : Type 0 where
  pub available_count : ℕ
  pub installed_count : ℕ
  pub updates_available : ℕ

abbrev pub count_one : InstalledOperator → Option HubOperator → ℕ → ℕ
count_one installed none count = count
count_one installed (some available) count =
    if str_eq available.version installed.version then count else suc count

abbrev pub count_in : List (String × HubOperator) → List (String × InstalledOperator) → ℕ
count_in operators [] = 0
count_in operators ((name, installed) ∷ rest) =
    count_one installed (lookup name operators) (count_in operators rest)

unfoldable pub stats : Hub → HubStats
stats hub = record {
  available_count = length hub.operators;
  installed_count = length hub.installed;
  updates_available = count_in hub.operators hub.installed;
}
