-- ===== src/CloudFixture/Accepted.antt =====
-- What the validator of the fixture accepts.
use streamline_operator.Base.{
  ℕ, String, Option, none, some, List, [], ◌∷◌, ◌≡◌, ◌↔◌, refl, Result, ok, err, length, is_empty,
  Bool, true, false, ap, subst, if◌then◌else◌,
}
use streamline_operator.Runtime.Traces.{All}
use streamline_operator.Crd.Cluster.{StreamlineCluster}
use streamline_operator.Crd.Topic.{StreamlineTopic}
use streamline_operator.Validate.{validate}
use streamline_operator.Validate.Exact.{IsAdmissible, validate_iff}
use streamline_operator.TopicController.Gate.{unsupported_fields}
use streamline_operator.TopicController.Gate.Exact.{AsksForNothingElse, unsupported_fields_iff}
use streamline_operator.CloudFixture.{
  CloudOperatorFixture, cluster_refusal, topic_refusal, first_of, refused_cluster, refused_topic,
  unless_refused, validate_resources, if_parsed, validate_fixture_contents, if_read,
  validate_fixture,
}

-- A fixture that the operator can carry out: there are clusters and topics, and each of them is one that
-- its controller accepts.
pub record IsAcceptable (fixture : CloudOperatorFixture) : Type 0 where
  pub clusters : is_empty fixture.streamline_clusters ≡ false
  pub topics : is_empty fixture.streamline_topics ≡ false
  pub admissible : All (λ c. IsAdmissible c.1.spec) fixture.streamline_clusters
  pub supported : All (λ t. AsksForNothingElse t.1.spec) fixture.streamline_topics

first_of_iff : (a b : Option String) → (first_of a b ≡ none) ↔ ((a ≡ none) × (b ≡ none))
first_of_iff none b = (λ h. (refl, h), λ h. h.1)
first_of_iff (some r) b = (λ h. cc, λ h. cc (h.0))

cluster_refusal_iff :
    (plan : String) (r : Result (List String) (Unit {0}))
    → (cluster_refusal plan r ≡ none) ↔ (r ≡ ok tt)
cluster_refusal_iff plan (ok _) = (λ h. refl, λ h. refl)
cluster_refusal_iff plan (err es) = (λ h. cc, λ h. cc)

topic_refusal_iff : (plan : String) (es : List String) → (topic_refusal plan es ≡ none) ↔ (es ≡ [])
topic_refusal_iff plan [] = (λ h. refl, λ h. refl)
topic_refusal_iff plan (e ∷ es) = (λ h. cc, λ h. cc)

refused_cluster_iff :
    (cs : List (String × StreamlineCluster))
    → (refused_cluster cs ≡ none) ↔ All (λ c. IsAdmissible c.1.spec) cs
unfolding refused_cluster
refused_cluster_iff [] = (λ h. tt, λ h. refl)
refused_cluster_iff ((plan, cluster) ∷ cs) =
    let here = cluster_refusal_iff plan (validate cluster.spec) in
    let both = first_of_iff (cluster_refusal plan (validate cluster.spec)) (refused_cluster cs) in
    let later = refused_cluster_iff cs in
    (
      λ h. let (a, b) = both.0 h in ((validate_iff cluster.spec).0 (here.0 a), later.0 b),
      λ h. both.1 (here.1 ((validate_iff cluster.spec).1 h.0), later.1 h.1),
    )

refused_topic_iff :
    (ts : List (String × StreamlineTopic))
    → (refused_topic ts ≡ none) ↔ All (λ t. AsksForNothingElse t.1.spec) ts
unfolding refused_topic
refused_topic_iff [] = (λ h. tt, λ h. refl)
refused_topic_iff ((plan, topic) ∷ ts) =
    let here = topic_refusal_iff plan (unsupported_fields topic.spec) in
    let both =
      first_of_iff (topic_refusal plan (unsupported_fields topic.spec)) (refused_topic ts) in
    let later = refused_topic_iff ts in
    (
      λ h. let (a, b) = both.0 h in ((unsupported_fields_iff topic.spec).0 (here.0 a), later.0 b),
      λ h. both.1 (here.1 ((unsupported_fields_iff topic.spec).1 h.0), later.1 h.1),
    )

checked_iff :
    (no_clusters no_topics : Bool) (refusal : Option String) (a b : String) (counts result : ℕ × ℕ)
    → ((if no_clusters then err a else if no_topics then err b else unless_refused refusal counts)
        ≡ ok result)
      ↔ ((no_clusters ≡ false) × (no_topics ≡ false) × (refusal ≡ none) × (counts ≡ result))
checked_iff true no_topics refusal a b counts result = (λ h. cc, λ h. cc (h.0))
checked_iff false true refusal a b counts result = (λ h. cc, λ h. cc (h.1))
checked_iff false false (some r) a b counts result = (λ h. cc, λ h. cc (h.2))
checked_iff false false none a b counts result = (λ h. (refl, refl, refl, cc h), λ h. ap ok h.3)

resources_iff :
    (fixture : CloudOperatorFixture) (result : ℕ × ℕ)
    → (validate_resources fixture ≡ ok result) ↔ (
        IsAcceptable fixture
        × ((length fixture.streamline_clusters, length fixture.streamline_topics) ≡ result))
unfolding validate_resources
resources_iff fixture result =
    let cs = fixture.streamline_clusters in
    let ts = fixture.streamline_topics in
    let both = first_of_iff (refused_cluster cs) (refused_topic ts) in
    let tests =
      checked_iff (is_empty cs) (is_empty ts) (first_of (refused_cluster cs) (refused_topic ts)) _ _
        (length cs, length ts) result in
    (
      λ h.
          let (some_clusters, some_topics, unrefused, same) = tests.0 h in
          let (c, t) = both.0 unrefused in
          (
            record {
              clusters = some_clusters;
              topics = some_topics;
              admissible = (refused_cluster_iff cs).0 c;
              supported = (refused_topic_iff ts).0 t;
            },
            same,
          ),
      λ (accepted, same).
          let c = (refused_cluster_iff cs).1 accepted.admissible in
          let t = (refused_topic_iff ts).1 accepted.supported in
          tests.1 (accepted.clusters, accepted.topics, both.1 (c, t), same),
    )

parsed_iff :
    (source : String) (r : Result String CloudOperatorFixture) (result : ℕ × ℕ)
    → (if_parsed source r ≡ ok result) ↔ (
        (fixture : CloudOperatorFixture) × (r ≡ ok fixture)
        × IsAcceptable fixture
        × ((length fixture.streamline_clusters, length fixture.streamline_topics) ≡ result))
parsed_iff source (err e) result = (λ h. cc, λ (fixture, h, accepted, same). cc h)
parsed_iff source (ok fixture) result =
    let here = resources_iff fixture result in
    (
      λ h. let (accepted, same) = here.0 h in (fixture, refl, accepted, same),
      λ (other, h, accepted, same).
          let one : other ≡ fixture = cc h in
          here.1 (
            subst IsAcceptable one accepted,
            subst (λ f. (length f.streamline_clusters, length f.streamline_topics) ≡ result) one
                same,
          ),
    )

module _ (parse : String → Result String CloudOperatorFixture)
    (read_to_string : String → Result String String) where
  read_iff :
      (path : String) (r : Result String String) (result : ℕ × ℕ)
      → (if_read parse read_to_string path r ≡ ok result) ↔ (
          (contents : String) × (fixture : CloudOperatorFixture) × (r ≡ ok contents)
          × (parse contents ≡ ok fixture)
          × IsAcceptable fixture
          × ((length fixture.streamline_clusters, length fixture.streamline_topics) ≡ result))
  unfolding validate_fixture_contents
  read_iff path (err e) result = (λ h. cc, λ (contents, fixture, h, parsed, accepted, same). cc h)
  read_iff path (ok contents) result =
      let here = parsed_iff path (parse contents) result in
      (
        λ h.
            let (fixture, parsed, accepted, same) = here.0 h in
            (contents, fixture, refl, parsed, accepted, same),
        λ (other, fixture, h, parsed, accepted, same).
            let one : other ≡ contents = cc h in
            here.1 (fixture, subst (λ c. parse c ≡ ok fixture) one parsed, accepted, same),
      )

  -- The validator accepts a file, with a number of clusters and of topics, exactly if it is read and parses
  -- as a fixture with that many of them, at least one of each, in which every cluster keeps the
  -- rules of `ClusterSpec::validate` and every topic asks for nothing but what the topic API applies.
  pub validate_fixture_iff :
      (path : String) (result : ℕ × ℕ)
      → (validate_fixture parse read_to_string path ≡ ok result) ↔ (
          (contents : String) × (fixture : CloudOperatorFixture) × (read_to_string path
            ≡ ok contents)
          × (parse contents ≡ ok fixture)
          × IsAcceptable fixture
          × ((length fixture.streamline_clusters, length fixture.streamline_topics) ≡ result))
  unfolding validate_fixture
  validate_fixture_iff path result = read_iff path (read_to_string path) result
