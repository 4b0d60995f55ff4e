-- ===== src/TopicController/Calls.antt =====
-- The calls of src/controllers/topic.rs, and what answers them.
use streamline_operator.Base.{
  ℕ, String, Bool, false, not, ◌&&◌, Option, none, some, List, [], ◌∷◌, Result, is_empty, unwrap_or,
  leb, ltb,
}
use streamline_operator.Base.Int.{ℤ, pos, ltb_ℤ}
use streamline_operator.Base.Text.{format, show_ℤ}
use streamline_operator.Crd.Cluster.{StreamlineCluster, ClusterStatus}
use streamline_operator.Crd.Topic.{StreamlineTopic, TopicStatus}
use streamline_operator.Runtime.{KubeError}

-- A call that the controller makes, with what it sends.
pub data TopicCall : Type 0 where
  apply_finalizers : String → String → List String → TopicCall
  merge_finalizers : String → String → List String → TopicCall
  get_cluster : String → String → TopicCall
  post_topic : String → String → ℤ → TopicCall
  read_topic : String → TopicCall
  delete_topic : String → TopicCall
  patch_status : String → String → TopicStatus → TopicCall

-- What the controller reads of an HTTP answer: the code, its `Display`, the body (empty if reading it
-- fails).
pub record HttpResponse : Type 0 where
  pub code : ℕ
  pub shown : String
  pub body : String

-- `StatusCode::is_success`
abbrev pub is_success : HttpResponse → Bool
is_success r = leb 200 r.code && ltb r.code 300

-- The API server, the Streamline server (an error is its text) and the clock, each a function of the
-- calls made before.
pub record TopicEnv : Type 0 where
  pub write : List TopicCall → TopicCall → Result KubeError (Unit {0})
  pub cluster : List TopicCall → String → String → Result KubeError StreamlineCluster
  pub post : List TopicCall → String → String → ℤ → Result String HttpResponse
  pub read : List TopicCall → String → Result String HttpResponse
  pub delete : List TopicCall → String → Result String HttpResponse
  pub now : List TopicCall → String
  pub elapsed_ms : List TopicCall → ℕ

unfoldable pub http_endpoint : String → String → ℤ → String
unfolding format
http_endpoint cluster_name namespace port = format (
    "http://"
    ∷ cluster_name
    ∷ "-0."
    ∷ cluster_name
    ∷ "-headless."
    ∷ namespace
    ∷ ".svc:"
    ∷ show_ℤ port
    ∷ [])

unfoldable pub topics_url : String → String
unfolding format
topics_url endpoint = format (endpoint ∷ "/api/v1/topics" ∷ [])

unfoldable pub topic_url : String → String → String
unfolding format
topic_url endpoint name = format (endpoint ∷ "/api/v1/topics/" ∷ name ∷ [])

-- `metadata.finalizers.as_deref().unwrap_or_default()`
abbrev pub finalizers_of : StreamlineTopic → List String
finalizers_of topic = unwrap_or [] topic.metadata.finalizers

abbrev pub namespace_of : Option String → String
namespace_of ns = unwrap_or "default" ns

abbrev pub is_ready_status : Option ClusterStatus → Bool
is_ready_status none = false
is_ready_status (some s) = ltb_ℤ (pos 0) s.ready_replicas && not (is_empty s.broker_endpoints)
