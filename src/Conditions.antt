-- ===== src/Conditions.antt =====
-- src/conditions.rs: the fields of a status condition, and how a list of them is updated.
pub mod Found
pub mod Stable
use streamline_operator.Base.{String, Option, some, List, [], ◌∷◌, str_eq, if◌then◌else◌}

abbrev pub condition_true : String
condition_true = "True"

abbrev pub condition_false : String
condition_false = "False"

abbrev pub condition_unknown : String
condition_unknown = "Unknown"

abbrev pub cluster_condition_ready : String
cluster_condition_ready = "Ready"

abbrev pub cluster_condition_progressing : String
cluster_condition_progressing = "Progressing"

abbrev pub cluster_condition_degraded : String
cluster_condition_degraded = "Degraded"

abbrev pub cluster_condition_available : String
cluster_condition_available = "Available"

abbrev pub topic_condition_ready : String
topic_condition_ready = "Ready"

abbrev pub topic_condition_synced : String
topic_condition_synced = "Synced"

abbrev pub user_condition_ready : String
user_condition_ready = "Ready"

abbrev pub user_condition_credentials_ready : String
user_condition_credentials_ready = "CredentialsReady"

abbrev pub cluster_finalizer : String
cluster_finalizer = "streamline.io/cluster-cleanup"

abbrev pub topic_finalizer : String
topic_finalizer = "streamline.io/topic-cleanup"

abbrev pub user_finalizer : String
user_finalizer = "streamline.io/user-cleanup"

pub record ConditionFields : Type 0 where
  pub condition_type : String
  pub status : String
  pub last_transition_time : Option String
  pub reason : Option String
  pub message : Option String

-- `now` is `Utc::now().to_rfc3339()`.
abbrev pub build_condition : String → String → String → String → String → ConditionFields
build_condition now condition_type status reason message = record {
  condition_type = condition_type;
  status = status;
  last_transition_time = some now;
  reason = some reason;
  message = some message;
}

-- The update of the entry that `find` returns: the transition time stays while the status does.
update_existing : ConditionFields → ConditionFields → ConditionFields
update_existing existing new =
    if str_eq existing.status new.status
    then record existing { reason = new.reason; message = new.message }
    else new

unfoldable pub set_condition : List ConditionFields → ConditionFields → List ConditionFields
unfolding update_existing
set_condition [] new = new ∷ []
set_condition (existing ∷ rest) new =
    let later = set_condition rest new in
    if str_eq existing.condition_type new.condition_type
    then update_existing existing new ∷ rest
    else existing ∷ later

-- A run of `set_condition` calls, one for each condition of the list.
abbrev pub set_all : List ConditionFields → List ConditionFields → List ConditionFields
set_all conditions [] = conditions
set_all conditions (new ∷ news) = set_all (set_condition conditions new) news
