-- ===== src/TopicController/Sync/Exact.antt =====
-- When the comparison answers what.
use streamline_operator.Base.{
  String, ◌≡◌, ◌≢◌, ◌↔◌, ◌⊎◌, inl, inr, refl, Option, none, some, List, [], ◌∷◌, arith,
}
use streamline_operator.Base.Int.{ℤ}
use streamline_operator.Base.Text.{join}
use streamline_operator.Crd.Topic.{TopicSpec}
use streamline_operator.TopicController.Sync.{
  TopicServerState, in_sync, drift, unverified, evaluate_sync, partition_drift, replication_drift,
  drifts,
}

-- A value was reported, and it is another than the wanted one.
abbrev pub Differs : Option ℤ → ℤ → Type 0
Differs reported wanted = (v : ℤ) × (reported ≡ some v) × (v ≢ wanted)

nil-cases : (xs : List String) → (xs ≡ []) ⊎ (xs ≢ [])
nil-cases [] = inl refl
nil-cases (x ∷ xs) = inr (λ e. cc)

in_sync_iff :
    (spec : TopicSpec) (st r : TopicServerState)
    → (evaluate_sync spec st ≡ in_sync r) ↔ (
        (r ≡ st)
        × (st.partitions ≡ some spec.partitions)
        × (st.replication_factor ≡ some spec.replication_factor))
unfolding evaluate_sync
in_sync_iff spec st r = (λ h. ground arith, λ h. ground arith)

partition_drift-Differs : (w : ℤ) (o : Option ℤ) → (partition_drift w o ≢ []) ↔ Differs o w
unfolding partition_drift
partition_drift-Differs w none = (λ h. absurd (h refl), λ h. cc h.1)
partition_drift-Differs w (some v) =
    (λ h. (v, refl, λ e. h (ground arith)), λ h e. h.2 (ground arith))

replication_drift-Differs : (w : ℤ) (o : Option ℤ) → (replication_drift w o ≢ []) ↔ Differs o w
unfolding replication_drift
replication_drift-Differs w none = (λ h. absurd (h refl), λ h. cc h.1)
replication_drift-Differs w (some v) =
    (λ h. (v, refl, λ e. h (ground arith)), λ h e. h.2 (ground arith))

drift_iff :
    (spec : TopicSpec) (st : TopicServerState)
    → ((m : String) × (evaluate_sync spec st ≡ drift m)) ↔ (
        Differs st.partitions spec.partitions
        ⊎ Differs st.replication_factor spec.replication_factor)
unfolding evaluate_sync
drift_iff spec st = (forward, backward)
  where
    forward :
        (m : String) × (evaluate_sync spec st ≡ drift m)
        → Differs st.partitions spec.partitions
          ⊎ Differs st.replication_factor spec.replication_factor
    forward (m, h) = elim (nil-cases (partition_drift spec.partitions st.partitions)) [
      | inr some_drift ↦ inl ((partition_drift-Differs _ _).0 some_drift)
      | inl none_drift ↦
          elim (nil-cases (replication_drift spec.replication_factor st.replication_factor)) [
            | inr some_drift ↦ inr ((replication_drift-Differs _ _).0 some_drift)
            | inl none_drift' ↦ absurd (ground arith)
          ]
    ]

    backward :
        Differs st.partitions spec.partitions
          ⊎ Differs st.replication_factor spec.replication_factor
        → (m : String) × (evaluate_sync spec st ≡ drift m)
    backward d = (join "; " (drifts spec st), reported d)
      where
        reported :
            Differs st.partitions spec.partitions
              ⊎ Differs st.replication_factor spec.replication_factor
            → evaluate_sync spec st ≡ drift (join "; " (drifts spec st))
        reported (inl d) =
            ground (arith, (partition_drift-Differs spec.partitions st.partitions).1 d)
        reported (inr d) =
            ground
              (arith, (replication_drift-Differs spec.replication_factor st.replication_factor).1 d)

unverified_iff :
    (spec : TopicSpec) (st : TopicServerState)
    → (evaluate_sync spec st ≡ unverified)
      ↔ ((drifts spec st ≡ []) × ((st.partitions ≡ none) ⊎ (st.replication_factor ≡ none)))
unfolding evaluate_sync
unverified_iff spec st = (λ h. ground arith, λ h. ground arith)

drifts-nil :
    (spec : TopicSpec) (st : TopicServerState)
    → ¬ (Differs st.partitions spec.partitions)
    → ¬ (Differs st.replication_factor spec.replication_factor)
    → drifts spec st ≡ []
unfolding drifts
drifts-nil spec st p r = elim (nil-cases (partition_drift spec.partitions st.partitions)) [
  | inr d ↦ absurd (p ((partition_drift-Differs _ _).0 d))
  | inl e ↦ elim (nil-cases (replication_drift spec.replication_factor st.replication_factor)) [
    | inr d ↦ absurd (r ((replication_drift-Differs _ _).0 d))
    | inl e' ↦ rw (e, e')
  ]
]

-- The three answers of the comparison, each exactly: `in_sync` with the reported state if both values
-- were reported and are the spec's; a drift if some reported value differs from the spec's;
-- `unverified` if no reported value differs and one was not reported.
pub evaluate_sync_exact :
    (spec : TopicSpec) (st : TopicServerState)
    → ((evaluate_sync spec st ≡ in_sync st) ↔ (
        (st.partitions ≡ some spec.partitions)
        × (st.replication_factor ≡ some spec.replication_factor)))
      × (((m : String) × (evaluate_sync spec st ≡ drift m)) ↔ (
          Differs st.partitions spec.partitions
          ⊎ Differs st.replication_factor spec.replication_factor))
      × ((evaluate_sync spec st ≡ unverified) ↔ (
          ¬ (Differs st.partitions spec.partitions)
          × ¬ (Differs st.replication_factor spec.replication_factor)
          × ((st.partitions ≡ none) ⊎ (st.replication_factor ≡ none))))
evaluate_sync_exact spec st = (
  (
    λ h. let r = (in_sync_iff spec st st).0 h in (r.1, r.2),
    λ h. (in_sync_iff spec st st).1 (refl, h.0, h.1),
  ),
  drift_iff spec st,
  (
    λ h. (
      λ d. let (m, e) = (drift_iff spec st).1 (inl d) in cc,
      λ d. let (m, e) = (drift_iff spec st).1 (inr d) in cc,
      ((unverified_iff spec st).0 h).1,
    ),
    λ h. (unverified_iff spec st).1 (drifts-nil spec st h.0 h.1, h.2),
  ),
)
