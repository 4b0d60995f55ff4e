-- ===== src/TopicController/Topics.antt =====
-- The topic on the Streamline server: `create_or_update_topic` and `fetch_topic_state` of
-- src/controllers/topic.rs.
use streamline_operator.Base.{
  String, Bool, not, ◌&&◌, [], ◌∷◌, Result, ok, err, ◌==◌, if◌then◌else◌,
}
use streamline_operator.Base.Text.{format}
use streamline_operator.Error.{internal}
use streamline_operator.Crd.Cluster.{StreamlineCluster}
use streamline_operator.Crd.Topic.{StreamlineTopic}
use streamline_operator.Runtime.{Exec, pure, fail, call, ◌>>=◌}
use streamline_operator.TopicController.Sync.{
  Json, TopicServerState, unreported, reports_nothing, parse_topic_state,
}
use streamline_operator.TopicController.Calls.{
  TopicCall, read_topic, post_topic, TopicEnv, HttpResponse, is_success, http_endpoint, topics_url,
  topic_url, namespace_of,
}

-- Neither a success nor the conflict that says that the topic is there.
unfoldable pub is_refused : HttpResponse → Bool
is_refused r = not (is_success r) && not (r.code == 409)

module _ (json : Json) (env : TopicEnv) where
  -- The answer to the read of a topic: only a success says anything.
  abbrev pub state_of_read : Result String HttpResponse → TopicServerState
  state_of_read (err e) = unreported
  state_of_read (ok response) =
      if is_success response then parse_topic_state json response.body else unreported

  unfoldable pub fetch_topic_state : String → String → Exec TopicCall TopicServerState
  fetch_topic_state endpoint name = do
    answer ←
        call (read_topic (topic_url endpoint name))
          (λ before. env.read before (topic_url endpoint name))
    pure (state_of_read answer)

  -- What becomes of the answer to the POST; 409 says that the topic is there already.
  unfoldable pub after_post :
      StreamlineTopic → String → Result String HttpResponse → Exec TopicCall TopicServerState
  unfolding fetch_topic_state format
  after_post topic endpoint (err e) = fail (
      internal
        (format ("HTTP request to create topic " ∷ topic.metadata.name_any ∷ " failed: " ∷ e ∷ [])))
  after_post topic endpoint (ok response) =
      if is_refused response
      then fail (
          internal (
            format (
              "Failed to create topic " ∷ topic.metadata.name_any ∷ " (HTTP " ∷ response.shown
              ∷ "): " ∷ response.body ∷ [])))
      else let state = parse_topic_state json response.body in
        if reports_nothing state
        then fetch_topic_state endpoint topic.metadata.name_any
        else pure state

  unfoldable pub create_or_update_topic :
      StreamlineTopic → StreamlineCluster → Exec TopicCall TopicServerState
  unfolding after_post
  create_or_update_topic topic cluster =
      let namespace = namespace_of cluster.metadata.namespace in
      let endpoint = http_endpoint cluster.metadata.name_any namespace cluster.spec.http_port in
      let name = topic.metadata.name_any in
      do
        answer ←
            call (post_topic (topics_url endpoint) name topic.spec.partitions)
              (λ before. env.post before (topics_url endpoint) name topic.spec.partitions)
        after_post topic endpoint answer
