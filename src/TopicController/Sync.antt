-- ===== src/TopicController/Sync.antt =====
-- `TopicServerState`, `parse_topic_state` and `evaluate_sync`: what the server reports of a topic, and
-- whether it is what the spec asks for.
pub mod Exact
use streamline_operator.Base.{
  ℕ, ◌+◌, ◌-◌, ◌^◌, String, Bool, true, false, not, ◌&&◌, Option, none, some, List, [], ◌∷◌, ◌++◌,
  is_empty, is_some, unwrap_or, if◌then◌else◌,
}
use streamline_operator.Base.Int.{ℤ, pos, negsuc, ltb_ℤ, eqb_ℤ}
use streamline_operator.Base.Text.{format, join, show_ℤ}
use streamline_operator.Crd.Topic.{TopicSpec}

pub record TopicServerState : Type 0 where
  pub partitions : Option ℤ
  pub replication_factor : Option ℤ

-- `TopicServerState::default()`
abbrev pub unreported : TopicServerState
unreported = record { partitions = none; replication_factor = none }

-- `TopicServerState::is_empty`
abbrev pub reports_nothing : TopicServerState → Bool
reports_nothing st = not (is_some st.partitions) && not (is_some st.replication_factor)

abbrev pub is_fully_reported : TopicServerState → Bool
is_fully_reported st = is_some st.partitions && is_some st.replication_factor

-- What the operator uses of `serde_json`: the parser, `Value::get` at a key, `Value::as_i64`.
pub record Json : Type 1 where
  pub Value : Type 0
  pub from_str : String → Option Value
  pub get : Value → String → Option Value
  pub as_i64 : Value → Option ℤ

abbrev pub fits_i32 : ℤ → Bool
fits_i32 v = not (ltb_ℤ v (negsuc (2 ^ 31 - 1))) && not (ltb_ℤ (pos (2 ^ 31 - 1)) v)

module _ (json : Json) where
  abbrev pub as_i64_of : Option json.Value → Option ℤ
  as_i64_of none = none
  as_i64_of (some v) = json.as_i64 v

  abbrev pub or_else : Option ℤ → Option ℤ → Option ℤ
  or_else none later = later
  or_else (some n) later = some n

  -- `keys.iter().find_map(|k| root.get(k).and_then(as_i64))`
  unfoldable pub find_number : json.Value → List String → Option ℤ
  find_number root [] = none
  find_number root (k ∷ ks) =
      let later = find_number root ks in or_else (as_i64_of (json.get root k)) later

  abbrev pub to_i32 : Option ℤ → Option ℤ
  to_i32 none = none
  to_i32 (some v) = if fits_i32 v then some v else none

  unfoldable pub state_of : json.Value → TopicServerState
  unfolding find_number
  state_of root = record {
    partitions =
        to_i32 (find_number root ("partitions" ∷ "partition_count" ∷ "partitionCount" ∷ []));
    replication_factor =
        to_i32 (find_number root ("replication_factor" ∷ "replicationFactor" ∷ []));
  }

  abbrev pub parsed_state : Option json.Value → TopicServerState
  parsed_state none = unreported
  parsed_state (some v) = state_of (unwrap_or v (json.get v "topic"))

  unfoldable pub parse_topic_state : String → TopicServerState
  unfolding state_of
  parse_topic_state body = parsed_state (json.from_str body)

pub data SyncOutcome : Type 0 where
  in_sync : TopicServerState → SyncOutcome
  drift : String → SyncOutcome
  unverified : SyncOutcome

unfoldable pub partition_drift : ℤ → Option ℤ → List String
unfolding format
partition_drift wanted none = []
partition_drift wanted (some partitions) =
    if eqb_ℤ partitions wanted
    then []
    else format
        ("server reports " ∷ show_ℤ partitions ∷ " partitions, spec requests " ∷ show_ℤ wanted ∷ [])
      ∷ []

unfoldable pub replication_drift : ℤ → Option ℤ → List String
unfolding format
replication_drift wanted none = []
replication_drift wanted (some rf) =
    if eqb_ℤ rf wanted
    then []
    else format
        ("server reports replication factor " ∷ show_ℤ rf ∷ ", spec requests " ∷ show_ℤ wanted ∷ [])
      ∷ []

unfoldable pub drifts : TopicSpec → TopicServerState → List String
unfolding partition_drift replication_drift
drifts spec st =
    partition_drift spec.partitions st.partitions
    ++ replication_drift spec.replication_factor st.replication_factor

unfoldable pub evaluate_sync : TopicSpec → TopicServerState → SyncOutcome
unfolding drifts
evaluate_sync spec st =
    if not (is_empty (drifts spec st))
    then drift (join "; " (drifts spec st))
    else if is_fully_reported st
    then in_sync st
    else unverified
