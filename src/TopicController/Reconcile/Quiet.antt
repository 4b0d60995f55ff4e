-- ===== src/TopicController/Reconcile/Quiet.antt =====
-- Publishing does not feed on itself: a pass over an object that carries the status which the pass
-- would publish makes no call for it.
use streamline_operator.Base.{String, true, false, List, ◌∷◌, ◌≡◌, refl, ok}
use streamline_operator.Base.Text.{join}
use streamline_operator.Base.Finalizers.{has}
use streamline_operator.Conditions.{topic_finalizer}
use streamline_operator.Runtime.{World, requeue, pure, meter, timed, now_at, ◌>>=◌}
use streamline_operator.Metrics.{inc_error, inc_reconcile}
use streamline_operator.Crd.Meta.{is_deleting}
use streamline_operator.Crd.Topic.{StreamlineTopic, TopicStatus, TopicStatus-discrete}
use streamline_operator.Status.Stamp.{is_published_self}
use streamline_operator.TopicController.Gate.{unsupported_fields}
use streamline_operator.TopicController.Sync.{Json}
use streamline_operator.TopicController.Statuses.{unsupported_status}
use streamline_operator.TopicController.Statuses.Stable.{published, unsupported_status_again}
use streamline_operator.TopicController.Calls.{TopicCall, TopicEnv, finalizers_of, namespace_of}
use streamline_operator.TopicController.Reconcile.{
  ensure_finalizer, patch_status_if_changed, update_status, gated, reconcile,
}

module _ (json : Json) (env : TopicEnv) where
  -- Publishing what is published already does nothing.
  patch_status-quiet :
      (topic : StreamlineTopic) (namespace : String) (s t : TopicStatus) (w : World TopicCall)
      → t ≡ s
      → patch_status_if_changed json env (published topic s) namespace t w ≡ (ok tt, w)
  unfolding patch_status_if_changed pure
  patch_status-quiet topic namespace s t w e = rw (e, is_published_self TopicStatus-discrete s)

  update_status-quiet :
      (topic : StreamlineTopic) (namespace : String) (s : TopicStatus)
      (build : String → StreamlineTopic → TopicStatus) (w : World TopicCall)
      → ((later : String) → build later (published topic s) ≡ s)
      → update_status json env (published topic s) namespace build w ≡ (ok tt, w)
  unfolding update_status now_at ◌>>=◌ pure
  update_status-quiet topic namespace s build w again =
      rw (again (env.now w.trace), is_published_self TopicStatus-discrete s)

  ensure_finalizer-held :
      (topic : StreamlineTopic) (namespace : String) (w : World TopicCall)
      → has topic_finalizer (finalizers_of topic) ≡ true
      → ensure_finalizer json env topic namespace w ≡ (ok tt, w)
  unfolding ensure_finalizer pure
  ensure_finalizer-held topic namespace w held = rw held

  gated-quiet :
      (topic : StreamlineTopic) (namespace now u : String) (us : List String) (w : World TopicCall)
      → gated json env
          (published topic (unsupported_status now topic (join "; " (u ∷ us))))
          namespace
          (u ∷ us)
          w
        ≡ (ok (requeue 300), record w { metrics = inc_error "topic" w.metrics })
  unfolding gated meter pure ◌>>=◌
  gated-quiet topic namespace now u us w = rw (
      update_status-quiet topic namespace (unsupported_status now topic (join "; " (u ∷ us)))
        (λ later t. unsupported_status later t (join "; " (u ∷ us))) w
        (λ later. unsupported_status_again now later topic (join "; " (u ∷ us))))

  -- A refused topic that is not being deleted, and that carries its finalizer and the status of an earlier
  -- refusal, is left alone: the pass, at any later time and whatever the API server would answer, makes no call at all, and
  -- asks to come back in 300 seconds. So a status patch does not set off another one.
  pub refused_twice_quiet :
      (topic : StreamlineTopic) (now u : String) (us : List String) (w : World TopicCall)
      → is_deleting topic.metadata ≡ false
      → has topic_finalizer (finalizers_of topic) ≡ true
      → unsupported_fields topic.spec ≡ u ∷ us
      → let again = published topic (unsupported_status now topic (join "; " (u ∷ us))) in
        ((reconcile json env again w).1.trace ≡ w.trace)
        × ((reconcile json env again w).0 ≡ ok (requeue 300))
  unfolding reconcile ◌>>=◌ meter timed
  refused_twice_quiet topic now u us w live held refused =
      let s = unsupported_status now topic (join "; " (u ∷ us)) in
      let w1 : World TopicCall = record w { metrics = inc_reconcile "topic" w.metrics } in
      let ns = namespace_of topic.metadata.namespace in
      rw
        (
          live,
          refused,
          ensure_finalizer-held (published topic s) ns w1 held,
          gated-quiet topic ns now u us w1,
        )
        (refl, refl)
