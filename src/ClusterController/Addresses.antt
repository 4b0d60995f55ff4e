-- ===== src/ClusterController/Addresses.antt =====
-- How the objects that src/controllers/cluster.rs renders refer to each other, and how what the
-- controllers address refers to them.
use Prim.Native.String.{◌++◌}
use text.Mathlib.TextLemmas.{append_assoc, append-nil}
use streamline_operator.Base.{
  ℕ, zero, suc, String, true, some, List, [], ◌∷◌, ◌++◌ as ◌+++◌, ◌≡◌, refl, sym, ap, ◌∙◌, inl, inr,
  Has, map,
}
use streamline_operator.Base.Int.{ℤ, pos, negsuc}
use streamline_operator.Base.Text.{format, show_ℕ, show_ℤ}
use streamline_operator.Runtime.Traces.{All}
use streamline_operator.Crd.Cluster.{StreamlineCluster}
use streamline_operator.Autoscaling.{AutoScalingConfig}
use streamline_operator.Autoscaling.Hpa.{build_hpa}
use streamline_operator.TopicController.Calls.{http_endpoint}
use streamline_operator.ClusterController.Config.{
  config_map_volume, config_file_name, config_mount_path, build_config_and_tls_volumes,
}
use streamline_operator.ClusterController.Workloads.{
  StatefulSet, Service, ConfigMap, build_statefulset, build_container, headless_service,
  client_service, build_configmap, literal, env_vars, base_env,
}
use streamline_operator.ClusterController.Statuses.{
  broker_endpoint, broker_endpoints_to, brokers_in, broker_endpoints,
}

-- The names that Kubernetes gives: a pod of a StatefulSet has the set's name and its ordinal, and below a
-- headless Service it is found under its own name, in the Service's namespace.
abbrev pub pod_name : StatefulSet → ℕ → String
pod_name set i = format (set.metadata.name ∷ "-" ∷ show_ℕ i ∷ [])

abbrev pub pod_address : StatefulSet → Service → ℕ → String
pod_address set service i =
    format (
      pod_name set i ∷ "." ∷ service.metadata.name ∷ "." ∷ service.metadata.namespace ∷ ".svc" ∷ [])

split_address :
    (a b c d e : String)
    → format (a ∷ "-" ∷ b ∷ "." ∷ c ∷ "-headless." ∷ d ∷ ".svc:" ∷ e ∷ [])
      ≡ format (
          format (
            format (a ∷ "-" ∷ b ∷ []) ∷ "." ∷ format (c ∷ "-headless" ∷ []) ∷ "." ∷ d ∷ ".svc" ∷ [])
          ∷ ":"
          ∷ e
          ∷ [])
unfolding format
split_address a b c d e =
    simp (append_assoc, append-nil)
      (cc (append_assoc "-headless" "." (d ++ (".svc" ++ (":" ++ e))), append_assoc ".svc" ":" e))

first_address :
    (a d e : String)
    → format ("http://" ∷ a ∷ "-0." ∷ a ∷ "-headless." ∷ d ∷ ".svc:" ∷ e ∷ [])
      ≡ format (
          "http://"
          ∷ format (
              format (
                format (a ∷ "-" ∷ "0" ∷ [])
                ∷ "."
                ∷ format (a ∷ "-headless" ∷ [])
                ∷ "."
                ∷ d
                ∷ ".svc"
                ∷ [])
              ∷ ":"
              ∷ e
              ∷ [])
          ∷ [])
unfolding format
first_address a d e =
    let rest = a ++ ("-headless." ++ (d ++ (".svc:" ++ (e ++ "")))) in
    let zeroth = append_assoc "-0" "." rest ∙ append_assoc "-" "0" ("." ++ rest) in
    let split = split_address a "0" a d e in
    ap (λ u. "http://" ++ (a ++ u)) zeroth ∙ ap (λ u. "http://" ++ u) (split ∙ sym (append-nil _))

abbrev upto : ℕ → (ℕ → String) → List String
upto zero f = []
upto (suc n) f = upto n f +++ (f n ∷ [])

-- One of each for the numbers from zero to below the bound, which may be negative.
abbrev pub for_each : ℤ → (ℕ → String) → List String
for_each (pos n) f = upto n f
for_each (negsuc n) f = []

-- The port of a pod, below the Service.
abbrev pub port_address : StatefulSet → Service → ℤ → ℕ → String
port_address set service port i = format (pod_address set service i ∷ ":" ∷ show_ℤ port ∷ [])

-- The pods of the set are what the Service selects, in its namespace, and each port of the Service is one
-- of each of their containers.
pub record IsServedBy (service : Service) (set : StatefulSet) : Type 0 where
  pub together : service.metadata.namespace ≡ set.metadata.namespace
  pub selected : service.selector ≡ set.template_labels
  pub exposed : All (λ p. All (λ c. Has p c.ports) set.containers) service.ports

-- The containers find the data of the ConfigMap under the path that they are told.
pub record IsConfiguredBy (set : StatefulSet) (config : ConfigMap) : Type 0 where
  pub together : config.metadata.namespace ≡ set.metadata.namespace
  pub volume :
      Has (record { name = "config"; source = config_map_volume config.metadata.name }) set.volumes
  pub file : String
  pub present : Has file (map (λ e. e.0) config.data_entries)
  pub mounted :
      All
        (λ c.
          Has
            (record { name = "config"; mount_path = config_mount_path; read_only = some true })
            c.volume_mounts)
        set.containers
  pub told :
      All
        (λ c.
          Has (literal "STREAMLINE_CONFIG" (format (config_mount_path ∷ "/" ∷ file ∷ []))) c.env)
        set.containers

-- The objects rendered for a cluster, and what the status and the topic controller address.
pub record IsLinked (cluster : StreamlineCluster) (namespace : String) (config : AutoScalingConfig)
    : Type 0 where
  pub governed :
      (build_statefulset cluster namespace).service_name
      ≡ (headless_service cluster namespace).metadata.name
  pub matched :
      (build_statefulset cluster namespace).match_labels
      ≡ (build_statefulset cluster namespace).template_labels
  pub headless :
      IsServedBy (headless_service cluster namespace) (build_statefulset cluster namespace)
  pub client : IsServedBy (client_service cluster namespace) (build_statefulset cluster namespace)
  pub configured :
      IsConfiguredBy (build_statefulset cluster namespace) (build_configmap cluster namespace)
  pub scaled :
      ((build_hpa cluster namespace config).scale_target_ref.kind ≡ "StatefulSet")
      × ((build_hpa cluster namespace config).scale_target_ref.name
          ≡ (build_statefulset cluster namespace).metadata.name)
  pub brokers :
      broker_endpoints cluster namespace
      ≡ for_each (build_statefulset cluster namespace).replicas (
          port_address
            (build_statefulset cluster namespace)
            (headless_service cluster namespace)
            cluster.spec.kafka_port)
  pub topics :
      http_endpoint cluster.metadata.name_any namespace cluster.spec.http_port
      ≡ format (
          "http://"
          ∷ port_address
              (build_statefulset cluster namespace)
              (headless_service cluster namespace)
              cluster.spec.http_port
              0
          ∷ [])

module _ (cluster : StreamlineCluster) (namespace : String) where
  headless-IsServedBy :
      IsServedBy (headless_service cluster namespace) (build_statefulset cluster namespace)
  unfolding headless_service build_statefulset build_container
  headless-IsServedBy = record {
    together = refl;
    selected = refl;
    exposed = ((inl refl, tt), ((inr (inl refl), tt), ((inr (inr (inl refl)), tt), tt)));
  }

  client-IsServedBy :
      IsServedBy (client_service cluster namespace) (build_statefulset cluster namespace)
  unfolding client_service build_statefulset build_container
  client-IsServedBy = record {
    together = refl;
    selected = refl;
    exposed = ((inl refl, tt), ((inr (inl refl), tt), tt));
  }

  set-IsConfiguredBy :
      IsConfiguredBy (build_statefulset cluster namespace) (build_configmap cluster namespace)
  unfolding build_statefulset build_configmap build_container build_config_and_tls_volumes env_vars
      base_env format
  set-IsConfiguredBy = record {
    together = refl;
    volume = inl refl;
    file = config_file_name;
    present = inl refl;
    mounted = (inr (inl refl), tt);
    told = (inl refl, tt);
  }

  broker_port :
      (i : ℕ)
      → broker_endpoint cluster.metadata.name_any namespace cluster.spec.kafka_port i
        ≡ port_address
            (build_statefulset cluster namespace)
            (headless_service cluster namespace)
            cluster.spec.kafka_port
            i
  unfolding broker_endpoint build_statefulset headless_service
  broker_port i =
      split_address cluster.metadata.name_any (show_ℕ i) cluster.metadata.name_any namespace
        (show_ℤ cluster.spec.kafka_port)

  brokers_to :
      (n : ℕ)
      → broker_endpoints_to cluster.metadata.name_any namespace cluster.spec.kafka_port n
        ≡ upto n (
            port_address
              (build_statefulset cluster namespace)
              (headless_service cluster namespace)
              cluster.spec.kafka_port)
  unfolding broker_endpoints_to
  brokers_to zero = refl
  brokers_to (suc n) = cc (brokers_to n, broker_port n)

  brokers_in-for_each :
      (z : ℤ)
      → brokers_in cluster.metadata.name_any namespace cluster.spec.kafka_port z
        ≡ for_each z (
            port_address
              (build_statefulset cluster namespace)
              (headless_service cluster namespace)
              cluster.spec.kafka_port)
  brokers_in-for_each (pos n) = brokers_to n
  brokers_in-for_each (negsuc n) = refl

  topic_address :
      http_endpoint cluster.metadata.name_any namespace cluster.spec.http_port
      ≡ format (
          "http://"
          ∷ port_address
              (build_statefulset cluster namespace)
              (headless_service cluster namespace)
              cluster.spec.http_port
              0
          ∷ [])
  unfolding http_endpoint build_statefulset headless_service show_ℕ
  topic_address = first_address cluster.metadata.name_any namespace (show_ℤ cluster.spec.http_port)

  -- The objects that are rendered for a cluster refer to each other as Kubernetes needs it. The StatefulSet
  -- names the headless Service; it and both Services select the pods that it makes, in one namespace, and
  -- every port of a Service is one of the container's. The container is told the path at which the
  -- ConfigMap's only file is mounted. The HPA scales that StatefulSet. The broker endpoints of the status
  -- are the Kafka port of each of its pods, in order and below the headless Service, and what the topic
  -- controller talks to is the HTTP port of the first.
  pub rendered-IsLinked : (config : AutoScalingConfig) → IsLinked cluster namespace config
  unfolding build_statefulset build_hpa headless_service broker_endpoints
  rendered-IsLinked config = record {
    governed = refl;
    matched = refl;
    headless = headless-IsServedBy;
    client = client-IsServedBy;
    configured = set-IsConfiguredBy;
    scaled = (refl, refl);
    brokers = brokers_in-for_each cluster.spec.replicas;
    topics = topic_address;
  }
