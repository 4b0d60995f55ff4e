-- ===== src/CloudFixture.antt =====
-- src/bin/validate-cloud-fixture.rs: the custom resources of a fixture, checked by the validation of the
-- controllers. An error is the text of its outermost context. The file system and the JSON parser are
-- parameters.
pub mod Accepted
use streamline_operator.Base.{
  ℕ, String, Option, none, some, List, [], ◌∷◌, Result, ok, err, length, is_empty, if◌then◌else◌,
}
use streamline_operator.Base.Text.{format, join, show_ℕ}
use streamline_operator.Crd.Cluster.{StreamlineCluster}
use streamline_operator.Crd.Topic.{StreamlineTopic}
use streamline_operator.Validate.{validate}
use streamline_operator.TopicController.Gate.{unsupported_fields}

-- The resources by plan, in the order of the plans.
pub record CloudOperatorFixture : Type 0 where
  pub streamline_clusters : List (String × StreamlineCluster)
  pub streamline_topics : List (String × StreamlineTopic)

abbrev pub cluster_refusal : String → Result (List String) (Unit {0}) → Option String
cluster_refusal plan (ok _) = none
cluster_refusal plan (err errors) = some (
    format (
      "streamlineClusters."
      ∷ plan
      ∷ " is rejected by ClusterSpec::validate(): "
      ∷ join "; " errors
      ∷ []))

abbrev pub topic_refusal : String → List String → Option String
topic_refusal plan [] = none
topic_refusal plan (e ∷ es) = some (
    format (
      "streamlineTopics."
      ∷ plan
      ∷ " is rejected by TopicController::unsupported_fields(): "
      ∷ join "; " (e ∷ es)
      ∷ []))

abbrev pub first_of : Option String → Option String → Option String
first_of none later = later
first_of (some refusal) later = some refusal

-- The first cluster, and the first topic, that is refused.
unfoldable pub refused_cluster : List (String × StreamlineCluster) → Option String
refused_cluster [] = none
refused_cluster ((plan, cluster) ∷ rest) =
    first_of (cluster_refusal plan (validate cluster.spec)) (refused_cluster rest)

unfoldable pub refused_topic : List (String × StreamlineTopic) → Option String
refused_topic [] = none
refused_topic ((plan, topic) ∷ rest) =
    first_of (topic_refusal plan (unsupported_fields topic.spec)) (refused_topic rest)

abbrev pub unless_refused : Option String → ℕ × ℕ → Result String (ℕ × ℕ)
unless_refused none counts = ok counts
unless_refused (some refusal) counts = err refusal

unfoldable pub validate_resources : CloudOperatorFixture → Result String (ℕ × ℕ)
unfolding refused_cluster refused_topic
validate_resources fixture =
    if is_empty fixture.streamline_clusters
    then err "cloud fixture contains no StreamlineCluster resources"
    else if is_empty fixture.streamline_topics
    then err "cloud fixture contains no StreamlineTopic resources"
    else unless_refused
        (first_of (refused_cluster fixture.streamline_clusters)
          (refused_topic fixture.streamline_topics))
        (length fixture.streamline_clusters, length fixture.streamline_topics)

abbrev pub if_parsed : String → Result String CloudOperatorFixture → Result String (ℕ × ℕ)
if_parsed source (err _) = err (format ("failed to deserialize cloud fixture " ∷ source ∷ []))
if_parsed source (ok fixture) = validate_resources fixture

abbrev pub usage : String → Result String String
usage program = err (format ("usage: " ∷ program ∷ " <cloud-fixture.json>" ∷ []))

-- The arguments of the process, the program's name first.
unfoldable pub fixture_argument : List String → Result String String
unfolding format
fixture_argument [] = usage "validate-cloud-fixture"
fixture_argument (program ∷ []) = usage program
fixture_argument (program ∷ (path ∷ [])) = ok path
fixture_argument (program ∷ (path ∷ (more ∷ rest))) = usage program

module _ (parse : String → Result String CloudOperatorFixture) where
  unfoldable pub validate_fixture_contents : String → String → Result String (ℕ × ℕ)
  unfolding validate_resources format
  validate_fixture_contents contents source = if_parsed source (parse contents)

  module _ (read_to_string : String → Result String String) where
    abbrev pub if_read : String → Result String String → Result String (ℕ × ℕ)
    if_read path (err _) = err (format ("failed to read cloud fixture " ∷ path ∷ []))
    if_read path (ok contents) = validate_fixture_contents contents path

    unfoldable pub validate_fixture : String → Result String (ℕ × ℕ)
    unfolding validate_fixture_contents format
    validate_fixture path = if_read path (read_to_string path)

    abbrev pub report : String → Result String (ℕ × ℕ) → Result String String
    report path (err e) = err e
    report path (ok (clusters, topics)) = ok (
        format (
          "Validated "
          ∷ show_ℕ clusters
          ∷ " StreamlineCluster and "
          ∷ show_ℕ topics
          ∷ " StreamlineTopic resource(s) from "
          ∷ path
          ∷ " with operator code.\n"
          ∷ []))

    abbrev pub with_path : Result String String → Result String String
    with_path (err e) = err e
    with_path (ok path) = report path (validate_fixture path)

    -- What is printed, or the error that the process ends with.
    unfoldable pub main : List String → Result String String
    unfolding fixture_argument validate_fixture format
    main args = with_path (fixture_argument args)
