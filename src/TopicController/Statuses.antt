-- ===== src/TopicController/Statuses.antt =====
-- The statuses of src/controllers/topic.rs: `seeded_conditions`, `with_stable_timestamp` and the four
-- builders. `now` stands for every `Utc::now().to_rfc3339()` of one pass.
pub mod Stable
use streamline_operator.Base.{
  String, Bool, true, false, Option, none, some, List, [], ◌∷◌, map, unwrap_or, if◌then◌else◌,
}
use streamline_operator.Base.Int.{ℤ, pos}
use streamline_operator.Conditions.{
  ConditionFields, build_condition, set_all, condition_true, condition_false, condition_unknown,
  topic_condition_ready, topic_condition_synced,
}
use streamline_operator.Crd.Topic.{
  StreamlineTopic, TopicStatus, TopicCondition, TopicPhase, pending, ready, failed,
  TopicStatus-discrete,
}
use streamline_operator.Status
use streamline_operator.TopicController.Sync.{TopicServerState}

-- `ConditionFields::into_topic_condition`
abbrev pub into_topic_condition : ConditionFields → TopicCondition
into_topic_condition c = record {
  type = c.condition_type;
  status = c.status;
  last_transition_time = c.last_transition_time;
  reason = c.reason;
  message = c.message;
}

abbrev pub of_topic_condition : TopicCondition → ConditionFields
of_topic_condition c = record {
  condition_type = c.type;
  status = c.status;
  last_transition_time = c.last_transition_time;
  reason = c.reason;
  message = c.message;
}

abbrev pub conditions_of : Option TopicStatus → List TopicCondition
conditions_of none = []
conditions_of (some status) = status.conditions

unfoldable pub seeded_conditions : StreamlineTopic → List ConditionFields
seeded_conditions topic = map of_topic_condition (conditions_of topic.status)

abbrev pub get_last_updated : TopicStatus → Option String
get_last_updated s = s.last_updated

abbrev pub put_last_updated : Option String → TopicStatus → TopicStatus
put_last_updated t s = record s { last_updated = t }

unfoldable pub with_stable_timestamp : String → StreamlineTopic → TopicStatus → TopicStatus
with_stable_timestamp now topic status =
    Status.with_stable_timestamp TopicStatus-discrete get_last_updated put_last_updated now
      topic.status status

-- The status literal that ends each builder.
abbrev pub status_of :
    StreamlineTopic → Bool → TopicPhase → ℤ → ℤ → Option String → List ConditionFields → TopicStatus
status_of topic is_ready phase partitions replication_factor error_message cond_fields = record {
  ready = is_ready;
  phase = phase;
  partitions = partitions;
  replication_factor = replication_factor;
  partition_assignments = [];
  conditions = map into_topic_condition cond_fields;
  observed_generation = topic.metadata.generation;
  last_updated = none;
  error_message = error_message;
}

-- The calls of `set_condition` on the seeded conditions, then the literal.
abbrev pub status_with :
    StreamlineTopic → Bool → TopicPhase → ℤ → ℤ → Option String → List ConditionFields → TopicStatus
status_with topic is_ready phase partitions replication_factor error_message news =
    status_of topic is_ready phase partitions replication_factor error_message
      (set_all (seeded_conditions topic) news)

abbrev pub unsupported_conditions : String → String → List ConditionFields
unsupported_conditions now message =
    build_condition now topic_condition_ready condition_false "UnsupportedConfiguration" message
    ∷ build_condition now topic_condition_synced condition_false "UnsupportedConfiguration"
        "The topic was not created because the spec requests unsupported settings"
    ∷ []

unfoldable pub unsupported_status : String → StreamlineTopic → String → TopicStatus
unsupported_status now topic message = with_stable_timestamp now topic (
    status_with topic false failed (pos 0) (pos 0) (some message)
      (unsupported_conditions now message))

abbrev pub synced_condition : String → Bool → ConditionFields
synced_condition now verified =
    if verified
    then build_condition now topic_condition_synced condition_true "ConfigSynced"
        "Server-reported partition count and replication factor match the desired state. No other topic configuration is applied: the Streamline topic API accepts only a name and a partition count"
    else build_condition now topic_condition_synced condition_unknown
        "ServerDidNotReportConfiguration"
        "The server accepted the topic but did not report both its partition count and replication factor, so the desired state could not be verified"

abbrev pub ready_conditions : String → Bool → List ConditionFields
ready_conditions now verified =
    build_condition now topic_condition_ready condition_true "TopicReady"
      "Topic successfully created/updated"
    ∷ synced_condition now verified
    ∷ []

unfoldable pub ready_status : String → StreamlineTopic → TopicServerState → Bool → TopicStatus
ready_status now topic state verified = with_stable_timestamp now topic (
    status_with topic true ready (unwrap_or (pos 0) state.partitions)
      (unwrap_or (pos 0) state.replication_factor) none (ready_conditions now verified))

abbrev pub pending_conditions : String → String → List ConditionFields
pending_conditions now message =
    build_condition now topic_condition_ready condition_false "Pending" message
    ∷ build_condition now topic_condition_synced condition_false "WaitingForCluster"
        "Topic cannot sync until cluster is ready"
    ∷ []

unfoldable pub pending_status : String → StreamlineTopic → String → TopicStatus
pending_status now topic message =
    with_stable_timestamp now topic
      (status_with topic false pending (pos 0) (pos 0) none (pending_conditions now message))

abbrev pub error_conditions : String → String → List ConditionFields
error_conditions now message =
    build_condition now topic_condition_ready condition_false "Error" message
    ∷ build_condition now topic_condition_synced condition_false "SyncFailed" message
    ∷ []

unfoldable pub error_status : String → StreamlineTopic → String → TopicStatus
error_status now topic error_message = with_stable_timestamp now topic (
    status_with topic false failed (pos 0) (pos 0) (some error_message)
      (error_conditions now error_message))
