-- ===== src/Crd/Preview/Backup.antt =====
-- src/crd/backup.rs: backups.
use streamline_operator.Base.{ℕ, String, Bool, true, Option, List}

pub data BackupType : Type 0 where
  full incremental metadata_only : BackupType

pub data BackupStorageType : Type 0 where
  s3 gcs azure_blob pvc : BackupStorageType

pub record BackupStorage : Type 0 where
  pub storage_type : BackupStorageType
  pub bucket : Option String
  pub endpoint : Option String
  pub prefix : Option String
  pub credentials_secret : Option String
  pub region : Option String
  pub pvc_name : Option String

pub record BackupSpec : Type 0 where
  pub cluster_ref : String
  pub backup_type : BackupType
  pub storage : BackupStorage
  pub schedule : Option String
  pub retention_count : ℕ
  pub topics : List String
  pub include_offsets : Bool
  pub include_acls : Bool
  pub include_configs : Bool
  pub compression : String

pub data BackupPhase : Type 0 where
  pending running completed failed expired : BackupPhase

pub record BackupCondition : Type 0 where
  pub condition_type : String
  pub status : String
  pub reason : String
  pub message : String
  pub last_transition_time : String

pub record BackupStatus : Type 0 where
  pub phase : BackupPhase
  pub last_backup_time : Option String
  pub last_successful_time : Option String
  pub completed_backups : ℕ
  pub last_backup_size_bytes : Option ℕ
  pub last_backup_duration_secs : Option ℕ
  pub topics_backed_up : ℕ
  pub error : Option String
  pub conditions : List BackupCondition

abbrev pub default_backup_type : BackupType
default_backup_type = full

abbrev pub default_retention_count : ℕ
default_retention_count = 5

abbrev pub default_true : Bool
default_true = true

abbrev pub default_compression : String
default_compression = "zstd"
