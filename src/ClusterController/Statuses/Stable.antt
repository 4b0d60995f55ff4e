-- ===== src/ClusterController/Statuses/Stable.antt =====
-- The cluster statuses are stable: computed again on the object that carries them, they do not change.
use streamline_operator.Base.{
  String, Bool, true, false, Option, some, List, [], ◌∷◌, ◌≡◌, refl, ap, ◌∙◌, map, Bool-cases, inl,
  inr, arith, if◌then◌else◌,
}
use streamline_operator.Base.Int.{ℤ, pos, eqb_ℤ, ltb_ℤ}
use streamline_operator.Conditions.{ConditionFields, set_all, build_condition}
use streamline_operator.Conditions.Stable.{
  HasDistinctTypes, SameContent, SameContents, set_all-set_all,
}
use streamline_operator.Crd.Cluster.{
  StreamlineCluster, ClusterStatus, ClusterPhase, ClusterStatus-discrete, failed,
}
use streamline_operator.Status.Stamp.{stamp-stamp, stamped}
use streamline_operator.ClusterController.Statuses.{
  into_cluster_condition, of_cluster_condition, seeded_conditions, get_last_updated,
  put_last_updated, with_stable_timestamp, status_with, status_of, invalid_status,
  invalid_conditions, observed_status, observed_conditions, observed_phase, broker_endpoints,
  ready_condition, available_condition, progressing_condition, degraded_condition,
}

-- The object after the status patch.
abbrev pub published : StreamlineCluster → ClusterStatus → StreamlineCluster
published cluster status = record cluster { status = some status }

of-into :
    (cs : List ConditionFields) → map of_cluster_condition (map into_cluster_condition cs) ≡ cs
of-into [] = refl
of-into (c ∷ cs) = ap (λ t. c ∷ t) (of-into cs)

-- The stamp leaves the rest of the status alone.
pub stamp-put :
    (now : String) (cluster : StreamlineCluster) (s : ClusterStatus)
    → (t : Option String) × (with_stable_timestamp now cluster s ≡ put_last_updated t s)
unfolding with_stable_timestamp
stamp-put now cluster s =
    stamped ClusterStatus-discrete get_last_updated put_last_updated (λ t s. refl) (λ t u s. refl)
      now cluster.status s

module _ (now later : String) (cluster : StreamlineCluster) (phase : ClusterPhase)
    (ready_replicas : ℤ) (endpoints : List String) (ns ms : List ConditionFields)
    (distinct : HasDistinctTypes ns) (same : SameContents ns ms) where
  abbrev raw : ClusterStatus
  raw = status_with cluster phase ready_replicas endpoints ns

  abbrev built : ClusterStatus
  built = with_stable_timestamp now cluster raw

  seeded-built :
      seeded_conditions (published cluster built) ≡ set_all (seeded_conditions cluster) ns
  unfolding seeded_conditions
  seeded-built =
      ap (λ (s : ClusterStatus). map of_cluster_condition s.conditions)
        ((stamp-put now cluster raw).1)
      ∙ of-into (set_all (seeded_conditions cluster) ns)

  raw-again : status_with (published cluster built) phase ready_replicas endpoints ms ≡ raw
  raw-again = ap (status_of cluster phase ready_replicas endpoints) (
      ap (λ cs. set_all cs ms) seeded-built
      ∙ set_all-set_all (seeded_conditions cluster) ns ms distinct same)

  pub restated :
      with_stable_timestamp later
        (published cluster built)
        (status_with (published cluster built) phase ready_replicas endpoints ms)
      ≡ built
  unfolding with_stable_timestamp
  restated =
      ap (with_stable_timestamp later (published cluster built)) raw-again
      ∙ stamp-stamp ClusterStatus-discrete get_last_updated put_last_updated (λ t s. refl)
          (λ t u s. refl) now later cluster.status raw refl

rebuilt :
    (now later kind status reason message : String)
    → SameContent
        (build_condition now kind status reason message)
        (build_condition later kind status reason message)
rebuilt now later kind status reason message = record {
  types = refl;
  statuses = refl;
  reasons = refl;
  messages = refl;
}

rebuilt_if :
    (b : Bool) {c d e f : ConditionFields}
    → SameContent c e
    → SameContent d f
    → SameContent (if b then c else d) (if b then e else f)
rebuilt_if true ce df = ce
rebuilt_if false ce df = df

module _ (now later : String) (desired count : ℤ) where
  ready_again :
      SameContent (ready_condition now desired count) (ready_condition later desired count)
  unfolding ready_condition
  ready_again =
      rebuilt_if (eqb_ℤ count desired) (rebuilt now later _ _ _ _) (rebuilt now later _ _ _ _)

  available_again : SameContent (available_condition now count) (available_condition later count)
  unfolding available_condition
  available_again =
      rebuilt_if (ltb_ℤ (pos 0) count) (rebuilt now later _ _ _ _) (rebuilt now later _ _ _ _)

  progressing_again :
      SameContent
        (progressing_condition now desired count)
        (progressing_condition later desired count)
  unfolding progressing_condition
  progressing_again =
      rebuilt_if (ltb_ℤ count desired) (rebuilt now later _ _ _ _)
        (rebuilt_if (ltb_ℤ desired count) (rebuilt now later _ _ _ _) (rebuilt now later _ _ _ _))

  degraded_again :
      SameContent (degraded_condition now desired count) (degraded_condition later desired count)
  unfolding degraded_condition
  degraded_again = rebuilt_if (eqb_ℤ count desired) (rebuilt now later _ _ _ _) (
      rebuilt_if (eqb_ℤ count (pos 0)) (rebuilt now later _ _ _ _)
        (rebuilt_if (ltb_ℤ count desired) (rebuilt now later _ _ _ _) (rebuilt now later _ _ _ _)))

module _ (now : String) (desired count : ℤ) where
  pub ready-type : (ready_condition now desired count).condition_type ≡ "Ready"
  unfolding ready_condition
  ready-type = elim (Bool-cases (eqb_ℤ count desired)) [ inl e ↦ rw e | inr e ↦ rw e ]

  pub available-type : (available_condition now count).condition_type ≡ "Available"
  unfolding available_condition
  available-type = elim (Bool-cases (ltb_ℤ (pos 0) count)) [ inl e ↦ rw e | inr e ↦ rw e ]

  pub progressing-type : (progressing_condition now desired count).condition_type ≡ "Progressing"
  unfolding progressing_condition
  progressing-type = elim (Bool-cases (ltb_ℤ count desired)) [
    | inl e ↦ rw e
    | inr e ↦ elim (Bool-cases (ltb_ℤ desired count)) [ inl f ↦ rw (e, f) | inr f ↦ rw (e, f) ]
  ]

  pub degraded-type : (degraded_condition now desired count).condition_type ≡ "Degraded"
  unfolding degraded_condition
  degraded-type = ground arith

  observed-HasDistinctTypes : HasDistinctTypes (observed_conditions now desired count)
  observed-HasDistinctTypes =
      rw (ready-type, available-type, progressing-type, degraded-type)
        ((refl, (refl, (refl, tt))), ((refl, (refl, tt)), ((refl, tt), (tt, tt))))

module _ (now later : String) (cluster : StreamlineCluster) where
  pub invalid_status_again :
      (message : String)
      → invalid_status later (published cluster (invalid_status now cluster message)) message
        ≡ invalid_status now cluster message
  unfolding invalid_status
  invalid_status_again message =
      restated now later cluster failed (pos 0) [] (invalid_conditions now message)
        (invalid_conditions later message)
        ((refl, (refl, (refl, tt))), ((refl, (refl, tt)), ((refl, tt), (tt, tt))))
        (
          rebuilt now later _ _ _ _,
          (rebuilt now later _ _ _ _, (rebuilt now later _ _ _ _, (rebuilt now later _ _ _ _, tt))),
        )

  observed_status_again :
      (namespace : String) (count : ℤ)
      → observed_status later
          (published cluster (observed_status now cluster namespace count))
          namespace
          count
        ≡ observed_status now cluster namespace count
  unfolding observed_status broker_endpoints
  observed_status_again namespace count =
      let desired = cluster.spec.replicas in
      restated now later cluster (observed_phase desired count) count
        (broker_endpoints cluster namespace) (observed_conditions now desired count)
        (observed_conditions later desired count) (observed-HasDistinctTypes now desired count)
        (
          ready_again now later desired count,
          (
            available_again now later desired count,
            (
              progressing_again now later desired count,
              (degraded_again now later desired count, tt),
            ),
          ),
        )

  -- The status of a rejected spec and the status of an observed broker count, once published on the
  -- object, come out equal when they are built again from that object, for the same message or the
  -- same count and namespace, whatever the clock says.
  pub cluster_statuses_again :
      (message namespace : String) (count : ℤ)
      → (invalid_status later (published cluster (invalid_status now cluster message)) message
          ≡ invalid_status now cluster message)
        × (observed_status later
              (published cluster (observed_status now cluster namespace count))
              namespace
              count
            ≡ observed_status now cluster namespace count)
  cluster_statuses_again message namespace count =
      (invalid_status_again message, observed_status_again namespace count)
