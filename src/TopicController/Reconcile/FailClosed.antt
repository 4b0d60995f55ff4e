-- ===== src/TopicController/Reconcile/FailClosed.antt =====
-- What the reconciler does to a topic whose spec the gate refuses, and what has to hold before it
-- talks to the Streamline server.
use streamline_operator.Base.{String, false, List, [], ◌∷◌, ◌≡◌, ◌≢◌, refl}
use streamline_operator.Runtime.{World}
use streamline_operator.Runtime.Traces.{
  All, Emits, emits_rules, Emits-bind, Emits-now_at, Emits-meter, Emits-timed,
}
use streamline_operator.Base.Text.{join}
use streamline_operator.TopicController.Statuses.{unsupported_status}
use streamline_operator.TopicController.Statuses.Stable.{unsupported-not_ready}
use streamline_operator.Crd.Meta.{is_deleting}
use streamline_operator.Crd.Topic.{StreamlineTopic, TopicStatus}
use streamline_operator.TopicController.Gate.{unsupported_fields}
use streamline_operator.TopicController.Sync.{Json}
use streamline_operator.TopicController.Calls.{TopicCall, TopicEnv, apply_finalizers, patch_status}
use streamline_operator.TopicController.Reconcile.{
  ensure_finalizer, patch_status_if_changed, update_status, gated, reconcile,
}

-- The calls that a refused spec may lead to: the finalizer, and a status that is not ready.
abbrev pub IsRefusalCall : TopicCall → Type 0
IsRefusalCall (apply_finalizers _ _ _) = Unit {0}
IsRefusalCall (patch_status _ _ s) = s.ready ≡ false
IsRefusalCall _ = ⊥

module _ (json : Json) (env : TopicEnv) {P : TopicCall → Type 0} where
  patch_status_if_changed-Emits :
      (topic : StreamlineTopic) (namespace : String) (s : TopicStatus)
      → ((ns name : String) → P (patch_status ns name s))
      → Emits P (patch_status_if_changed json env topic namespace s)
  unfolding patch_status_if_changed
  patch_status_if_changed-Emits topic namespace s p = search emits_rules

  update_status-Emits :
      (topic : StreamlineTopic) (namespace : String)
      (build : String → StreamlineTopic → TopicStatus)
      → ((ns name now : String) → P (patch_status ns name (build now topic)))
      → Emits P (update_status json env topic namespace build)
  unfolding update_status
  update_status-Emits topic namespace build p = Emits-bind _ _ (Emits-now_at env.now) (λ now.
      patch_status_if_changed-Emits topic namespace (build now topic) (λ ns name. p ns name now))

  ensure_finalizer-Emits :
      (topic : StreamlineTopic) (namespace : String)
      → ((ns name : String) (fs : List String) → P (apply_finalizers ns name fs))
      → Emits P (ensure_finalizer json env topic namespace)
  unfolding ensure_finalizer
  ensure_finalizer-Emits topic namespace p = search emits_rules

module _ (json : Json) (env : TopicEnv) where
  refused-Emits :
      (topic : StreamlineTopic) (namespace : String) (us : List String)
      → us ≢ []
      → Emits IsRefusalCall (gated json env topic namespace us)
  unfolding gated
  refused-Emits topic namespace [] h = absurd (h refl)
  refused-Emits topic namespace (u ∷ us) h =
      Emits-bind _ _
        (update_status-Emits json env topic namespace
          (λ now t. unsupported_status now t (join "; " (u ∷ us)))
          (λ ns name now. unsupported-not_ready now topic (join "; " (u ∷ us))))
        (λ _. search emits_rules)

  reconcile-refused :
      (topic : StreamlineTopic)
      → unsupported_fields topic.spec ≢ []
      → is_deleting topic.metadata ≡ false
      → Emits IsRefusalCall (reconcile json env topic)
  unfolding reconcile
  reconcile-refused topic refused live = rw live (
      Emits-bind _ _ (Emits-meter _) (λ _. Emits-timed env.elapsed_ms _ (
        Emits-bind _ _ (ensure_finalizer-Emits json env topic _ (λ ns name fs. tt))
          (λ _. refused-Emits topic _ (unsupported_fields topic.spec) refused))))

  -- For a topic that is not being deleted and whose spec the gate refuses, whatever the API server
  -- answers, every call of one pass sets the finalizer or publishes a status that is not ready: the
  -- cluster is not looked up and nothing is sent to the Streamline server.
  pub reconcile_fails_closed :
      (topic : StreamlineTopic) (w : World TopicCall)
      → unsupported_fields topic.spec ≢ []
      → is_deleting topic.metadata ≡ false
      → w.trace ≡ []
      → All IsRefusalCall (reconcile json env topic w).1.trace
  reconcile_fails_closed topic w refused live fresh =
      (reconcile-refused topic refused live).at w (rw fresh tt)
