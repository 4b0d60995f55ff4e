-- ===== src/Upgrade.antt =====
-- src/upgrade.rs: the table of the v0.3.0 defaults that the operator rejects, and the sentence that a
-- rejection carries for each.
use streamline_operator.Base.{
  String, Bool, true, false, Option, none, some, List, [], ◌∷◌, str_eq, unwrap_or, if◌then◌else◌,
}
use streamline_operator.Base.Int.{ℤ, pos, negsuc}
use streamline_operator.Base.Text.{format}

abbrev pub upgrade_guide : String
upgrade_guide = "docs/UPGRADING.md"

abbrev pub legacy_cluster_replicas : ℤ
legacy_cluster_replicas = pos 3

abbrev pub supported_cluster_replicas : ℤ
supported_cluster_replicas = pos 1

abbrev pub legacy_pod_anti_affinity : Bool
legacy_pod_anti_affinity = true

abbrev pub supported_pod_anti_affinity : Bool
supported_pod_anti_affinity = false

abbrev pub legacy_topic_replication_factor : ℤ
legacy_topic_replication_factor = pos 2

abbrev pub supported_topic_replication_factor : ℤ
supported_topic_replication_factor = pos 1

abbrev pub legacy_topic_retention_ms : ℤ
legacy_topic_retention_ms = pos 604800000

abbrev pub supported_topic_retention_ms : ℤ
supported_topic_retention_ms = negsuc 0

abbrev pub legacy_topic_min_insync_replicas : ℤ
legacy_topic_min_insync_replicas = pos 1

abbrev pub legacy_topic_max_message_bytes : ℤ
legacy_topic_max_message_bytes = pos 1048576

abbrev pub removed_value : String
removed_value = "null"

pub data Remediation : Type 0 where
  set_value remove_key : Remediation

pub record LegacyDefault : Type 0 where
  pub kind : String
  pub resource : String
  pub field : String
  pub key : String
  pub parent : Option String
  pub legacy_value : String
  pub supported_value : String
  pub remediation_kind : Remediation
  pub merge_patch : String

unfoldable pub patch_command : LegacyDefault → String → String → String
unfolding format
patch_command d name namespace = format (
    "kubectl patch " ∷ d.resource ∷ " " ∷ name ∷ " -n " ∷ namespace ∷ " --type merge -p '"
    ∷ d.merge_patch ∷ "'" ∷ [])

unfoldable pub patch_template : LegacyDefault → String
unfolding patch_command
patch_template d = patch_command d "<name>" "<namespace>"

unfoldable pub legacy_yaml : LegacyDefault → String
unfolding format
legacy_yaml d = format (d.field ∷ ": " ∷ d.legacy_value ∷ [])

unfoldable pub supported_yaml : LegacyDefault → String
unfolding format
supported_yaml d = format (d.field ∷ ": " ∷ d.supported_value ∷ [])

abbrev pub is_remove_key : Remediation → Bool
is_remove_key set_value = false
is_remove_key remove_key = true

abbrev pub removes_the_key : LegacyDefault → Bool
removes_the_key d = is_remove_key d.remediation_kind

abbrev pub needs_corrected_crds_first : LegacyDefault → Bool
needs_corrected_crds_first d = removes_the_key d

abbrev pub observed_is_legacy : LegacyDefault → String → Bool
observed_is_legacy d observed = str_eq observed d.legacy_value

-- Where the rejected value comes from, said only if it is the one that v0.3.0 persisted.
provenance_of : LegacyDefault → Option String → String
unfolding format
provenance_of d none = format (
    " It is the v0.3.0 CRD schema default, which the API server persisted into every " ∷ d.kind
    ∷ " created against those CRDs, so the spec can carry it without anyone having written it. The operator does not rewrite specs."
    ∷ [])
provenance_of d (some parent) = format (
    " It is the v0.3.0 CRD schema default, which the API server persisted into every " ∷ d.kind
    ∷ " whose manifest opened a `" ∷ parent
    ∷ "` block (structural defaults are only injected into objects that are present), so the spec can carry it without anyone having written it. The operator does not rewrite specs."
    ∷ [])

unfoldable pub provenance : LegacyDefault → Bool → String
unfolding provenance_of
provenance d observed_is_legacy = if observed_is_legacy then provenance_of d d.parent else ""

unfoldable pub action : LegacyDefault → String
unfolding format
action d =
    if removes_the_key d
    then format (
        "Remove the key — writing `"
        ∷ supported_yaml d
        ∷ "` deletes this one leaf and leaves every other "
        ∷ unwrap_or "spec" d.parent
        ∷ " setting in place — and re-apply, or patch the stored object in place with `"
        ∷ patch_template d
        ∷ "`. The removal only sticks once the corrected CRDs are installed: v0.3.0 declares a default for this field, and defaulting runs after the patch is merged, so the API server puts the key back on the same write."
        ∷ [])
    else format (
        "Set "
        ∷ supported_yaml d
        ∷ " and re-apply, or patch the stored object in place with `"
        ∷ patch_template d
        ∷ "`."
        ∷ [])

-- `LegacyDefault::remediation`
unfoldable pub remediation : LegacyDefault → Bool → String
unfolding format
remediation d observed_is_legacy = format (
    " "
    ∷ action d
    ∷ provenance d observed_is_legacy
    ∷ " See "
    ∷ upgrade_guide
    ∷ " for the full upgrade path, including how to find every affected resource."
    ∷ [])

abbrev pub cluster_replicas_default : LegacyDefault
cluster_replicas_default = record {
  kind = "StreamlineCluster";
  resource = "streamlineclusters";
  field = "spec.replicas";
  key = "replicas";
  parent = none;
  legacy_value = "3";
  supported_value = "1";
  remediation_kind = set_value;
  merge_patch = "{\"spec\":{\"replicas\":1}}";
}

abbrev pub pod_anti_affinity_default : LegacyDefault
pod_anti_affinity_default = record {
  kind = "StreamlineCluster";
  resource = "streamlineclusters";
  field = "spec.podAntiAffinity";
  key = "podAntiAffinity";
  parent = none;
  legacy_value = "true";
  supported_value = "false";
  remediation_kind = set_value;
  merge_patch = "{\"spec\":{\"podAntiAffinity\":false}}";
}

abbrev pub replication_factor_default : LegacyDefault
replication_factor_default = record {
  kind = "StreamlineTopic";
  resource = "streamlinetopics";
  field = "spec.replicationFactor";
  key = "replicationFactor";
  parent = none;
  legacy_value = "2";
  supported_value = "1";
  remediation_kind = set_value;
  merge_patch = "{\"spec\":{\"replicationFactor\":1}}";
}

abbrev pub retention_ms_default : LegacyDefault
retention_ms_default = record {
  kind = "StreamlineTopic";
  resource = "streamlinetopics";
  field = "spec.retention.retentionMs";
  key = "retentionMs";
  parent = some "spec.retention";
  legacy_value = "604800000";
  supported_value = "-1";
  remediation_kind = set_value;
  merge_patch = "{\"spec\":{\"retention\":{\"retentionMs\":-1}}}";
}

abbrev pub min_insync_replicas_default : LegacyDefault
min_insync_replicas_default = record {
  kind = "StreamlineTopic";
  resource = "streamlinetopics";
  field = "spec.config.minInsyncReplicas";
  key = "minInsyncReplicas";
  parent = some "spec.config";
  legacy_value = "1";
  supported_value = removed_value;
  remediation_kind = remove_key;
  merge_patch = "{\"spec\":{\"config\":{\"minInsyncReplicas\":null}}}";
}

abbrev pub max_message_bytes_default : LegacyDefault
max_message_bytes_default = record {
  kind = "StreamlineTopic";
  resource = "streamlinetopics";
  field = "spec.config.maxMessageBytes";
  key = "maxMessageBytes";
  parent = some "spec.config";
  legacy_value = "1048576";
  supported_value = removed_value;
  remediation_kind = remove_key;
  merge_patch = "{\"spec\":{\"config\":{\"maxMessageBytes\":null}}}";
}

-- `LEGACY_DEFAULTS`
abbrev pub legacy_defaults : List LegacyDefault
legacy_defaults =
    cluster_replicas_default ∷ pod_anti_affinity_default ∷ replication_factor_default
    ∷ retention_ms_default ∷ min_insync_replicas_default ∷ max_message_bytes_default ∷ []

unfoldable pub find_field : String → List LegacyDefault → Option LegacyDefault
find_field field [] = none
find_field field (entry ∷ rest) =
    let later = find_field field rest in if str_eq entry.field field then some entry else later

unfoldable pub legacy_default : String → Option LegacyDefault
unfolding find_field
legacy_default field = find_field field legacy_defaults

remediation_or_default : (LegacyDefault → Bool) → Option LegacyDefault → String
remediation_or_default legacy none = ""
remediation_or_default legacy (some entry) = remediation entry (legacy entry)

unfoldable pub remediation_for : String → Bool → String
unfolding legacy_default remediation_or_default
remediation_for field observed_is_legacy =
    remediation_or_default (λ _. observed_is_legacy) (legacy_default field)

unfoldable pub remediation_for_value : String → String → String
unfolding legacy_default remediation_or_default
remediation_for_value field observed =
    remediation_or_default (λ entry. observed_is_legacy entry observed) (legacy_default field)
