-- ===== src/TopicController/Statuses/Stable.antt =====
-- The statuses are stable: computed again on the object that carries them, they do not change.
use streamline_operator.Base.{
  String, Bool, true, false, Option, some, List, [], ◌∷◌, ◌≡◌, refl, ap, ◌∙◌, map,
}
use streamline_operator.Base.Int.{ℤ}
use streamline_operator.Conditions.{ConditionFields, set_all, build_condition}
use streamline_operator.Conditions.Stable.{
  HasDistinctTypes, SameContent, SameContents, set_all-set_all,
}
use streamline_operator.Crd.Topic.{StreamlineTopic, TopicStatus, TopicPhase, TopicStatus-discrete}
use streamline_operator.Status.Stamp.{stamp-stamp, stamped}
use streamline_operator.TopicController.Sync.{TopicServerState}
use streamline_operator.TopicController.Statuses.{
  into_topic_condition, of_topic_condition, seeded_conditions, get_last_updated, put_last_updated,
  with_stable_timestamp, status_with, status_of, unsupported_status, unsupported_conditions,
  ready_status, ready_conditions, pending_status, pending_conditions, error_status,
  error_conditions,
}

-- The object after the status patch.
abbrev pub published : StreamlineTopic → TopicStatus → StreamlineTopic
published topic status = record topic { status = some status }

of-into : (cs : List ConditionFields) → map of_topic_condition (map into_topic_condition cs) ≡ cs
of-into [] = refl
of-into (c ∷ cs) = ap (λ t. c ∷ t) (of-into cs)

-- The stamp leaves the rest of the status alone.
pub ready-with_stable_timestamp :
    (now : String) (topic : StreamlineTopic) (s : TopicStatus)
    → (with_stable_timestamp now topic s).ready ≡ s.ready
unfolding with_stable_timestamp
ready-with_stable_timestamp now topic s =
    ap (λ (t : TopicStatus). t.ready)
      (stamped TopicStatus-discrete get_last_updated put_last_updated (λ t s. refl) (λ t u s. refl)
        now topic.status s).1

pub unsupported-not_ready :
    (now : String) (topic : StreamlineTopic) (message : String)
    → (unsupported_status now topic message).ready ≡ false
unfolding unsupported_status
unsupported-not_ready now topic message = ready-with_stable_timestamp now topic _

pub pending-not_ready :
    (now : String) (topic : StreamlineTopic) (message : String)
    → (pending_status now topic message).ready ≡ false
unfolding pending_status
pending-not_ready now topic message = ready-with_stable_timestamp now topic _

pub error-not_ready :
    (now : String) (topic : StreamlineTopic) (message : String)
    → (error_status now topic message).ready ≡ false
unfolding error_status
error-not_ready now topic message = ready-with_stable_timestamp now topic _

module _ (now later : String) (topic : StreamlineTopic) (is_ready : Bool) (phase : TopicPhase)
    (partitions replication_factor : ℤ) (error_message : Option String)
    (ns ms : List ConditionFields) (distinct : HasDistinctTypes ns)
    (same : SameContents ns ms) where
  abbrev raw : TopicStatus
  raw = status_with topic is_ready phase partitions replication_factor error_message ns

  abbrev built : TopicStatus
  built = with_stable_timestamp now topic raw

  built-put : (t : Option String) × (built ≡ put_last_updated t raw)
  unfolding with_stable_timestamp
  built-put =
      stamped TopicStatus-discrete get_last_updated put_last_updated (λ t s. refl) (λ t u s. refl)
        now topic.status raw

  seeded-built : seeded_conditions (published topic built) ≡ set_all (seeded_conditions topic) ns
  unfolding seeded_conditions
  seeded-built =
      ap (λ (s : TopicStatus). map of_topic_condition s.conditions) (built-put.1)
      ∙ of-into (set_all (seeded_conditions topic) ns)

  raw-again :
      status_with
        (published topic built)
        is_ready
        phase
        partitions
        replication_factor
        error_message
        ms
      ≡ raw
  raw-again = ap (status_of topic is_ready phase partitions replication_factor error_message) (
      ap (λ cs. set_all cs ms) seeded-built
      ∙ set_all-set_all (seeded_conditions topic) ns ms distinct same)

  pub restated :
      with_stable_timestamp later (published topic built) (
        status_with
          (published topic built)
          is_ready
          phase
          partitions
          replication_factor
          error_message
          ms)
      ≡ built
  unfolding with_stable_timestamp
  restated =
      ap (with_stable_timestamp later (published topic built)) raw-again
      ∙ stamp-stamp TopicStatus-discrete get_last_updated put_last_updated (λ t s. refl)
          (λ t u s. refl) now later topic.status raw refl

rebuilt :
    (now later kind status reason message : String)
    → SameContent
        (build_condition now kind status reason message)
        (build_condition later kind status reason message)
rebuilt now later kind status reason message = record {
  types = refl;
  statuses = refl;
  reasons = refl;
  messages = refl;
}

module _ (now later : String) (topic : StreamlineTopic) where
  pub unsupported_status_again :
      (message : String)
      → unsupported_status later (published topic (unsupported_status now topic message)) message
        ≡ unsupported_status now topic message
  unfolding unsupported_status
  unsupported_status_again message =
      restated now later topic _ _ _ _ _ (unsupported_conditions now message)
        (unsupported_conditions later message) ((refl, tt), (tt, tt))
        (rebuilt _ _ _ _ _ _, (rebuilt _ _ _ _ _ _, tt))

  pub pending_status_again :
      (message : String)
      → pending_status later (published topic (pending_status now topic message)) message
        ≡ pending_status now topic message
  unfolding pending_status
  pending_status_again message =
      restated now later topic _ _ _ _ _ (pending_conditions now message)
        (pending_conditions later message) ((refl, tt), (tt, tt))
        (rebuilt _ _ _ _ _ _, (rebuilt _ _ _ _ _ _, tt))

  pub error_status_again :
      (message : String)
      → error_status later (published topic (error_status now topic message)) message
        ≡ error_status now topic message
  unfolding error_status
  error_status_again message =
      restated now later topic _ _ _ _ _ (error_conditions now message)
        (error_conditions later message) ((refl, tt), (tt, tt))
        (rebuilt _ _ _ _ _ _, (rebuilt _ _ _ _ _ _, tt))

  pub ready_status_again :
      (state : TopicServerState) (verified : Bool)
      → ready_status later (published topic (ready_status now topic state verified)) state verified
        ≡ ready_status now topic state verified
  unfolding ready_status
  ready_status_again state true =
      restated now later topic _ _ _ _ _ (ready_conditions now true) (ready_conditions later true)
        ((refl, tt), (tt, tt)) (rebuilt _ _ _ _ _ _, (rebuilt _ _ _ _ _ _, tt))
  ready_status_again state false =
      restated now later topic _ _ _ _ _ (ready_conditions now false) (ready_conditions later false)
        ((refl, tt), (tt, tt)) (rebuilt _ _ _ _ _ _, (rebuilt _ _ _ _ _ _, tt))

  -- Each of the four statuses (unsupported, pending, error, ready), once published on the object,
  -- comes out equal when it is built again from that object for the same cause, whatever the clock
  -- says: neither `lastUpdated` nor a transition time is minted anew.
  pub statuses_again :
      (message : String) (state : TopicServerState) (verified : Bool)
      → (unsupported_status later (published topic (unsupported_status now topic message)) message
          ≡ unsupported_status now topic message)
        × (pending_status later (published topic (pending_status now topic message)) message
            ≡ pending_status now topic message)
        × (error_status later (published topic (error_status now topic message)) message
            ≡ error_status now topic message)
        × (ready_status later
              (published topic (ready_status now topic state verified))
              state
              verified
            ≡ ready_status now topic state verified)
  statuses_again message state verified = (
    unsupported_status_again message,
    pending_status_again message,
    error_status_again message,
    ready_status_again state verified,
  )
