-- ===== src/ClusterController/Statuses/Coherent.antt =====
-- The phase and the conditions of a cluster's status say the same thing about the broker count.
use streamline_operator.Base.{
  String, Bool, true, false, not, Option, none, some, List, [], ◌∷◌, ◌≡◌, ◌≢◌, ◌↔◌, refl, ◌∙◌, map,
  arith, str_eq, Bool-cases, inl, inr, if◌then◌else◌,
}
use streamline_operator.Base.Int.{ℤ, pos, eqb_ℤ, ltb_ℤ, eqb_ℤ_iff, ◌<ℤ◌}
use streamline_operator.Conditions.{ConditionFields, set_all, condition_true, condition_false}
use streamline_operator.Conditions.Found.{found, found-set_condition}
use streamline_operator.Crd.Cluster.{StreamlineCluster, ClusterStatus, ClusterCondition, running}
use streamline_operator.ClusterController.Statuses.{
  into_cluster_condition, seeded_conditions, observed_status, observed_conditions, observed_phase,
  ready_condition, available_condition, progressing_condition, degraded_condition, status_with,
  broker_endpoints,
}
use streamline_operator.ClusterController.Statuses.Stable.{
  stamp-put, ready-type, available-type, progressing-type, degraded-type,
}

-- The status of the first condition of that type.
abbrev pub reported : String → List ClusterCondition → Option String
reported kind [] = none
reported kind (c ∷ cs) =
    let rest = reported kind cs in if str_eq c.type kind then some c.status else rest

reported-into :
    (kind : String) (cs : List ConditionFields)
    → reported kind (map into_cluster_condition cs) ≡ found kind cs
unfolding found
reported-into kind [] = refl
reported-into kind (c ∷ cs) = rw (reported-into kind cs)

-- `"True"` or `"False"`.
abbrev pub truth : Bool → String
truth true = condition_true
truth false = condition_false

module _ (now : String) (desired count : ℤ) where
  ready-status : (ready_condition now desired count).status ≡ truth (eqb_ℤ count desired)
  unfolding ready_condition
  ready-status = elim (Bool-cases (eqb_ℤ count desired)) [ inl e ↦ rw e | inr e ↦ rw e ]

  available-status : (available_condition now count).status ≡ truth (ltb_ℤ (pos 0) count)
  unfolding available_condition
  available-status = elim (Bool-cases (ltb_ℤ (pos 0) count)) [ inl e ↦ rw e | inr e ↦ rw e ]

  progressing-status :
      (progressing_condition now desired count).status ≡ truth (not (eqb_ℤ count desired))
  unfolding progressing_condition
  progressing-status = ground arith

  degraded-status :
      (degraded_condition now desired count).status ≡ truth (not (eqb_ℤ count desired))
  unfolding degraded_condition
  degraded-status = ground arith

module _ (now : String) (cs : List ConditionFields) (desired count : ℤ) where
  abbrev updated : List ConditionFields
  updated = set_all cs (observed_conditions now desired count)

  found-ready : found "Ready" updated ≡ some (truth (eqb_ℤ count desired))
  found-ready = simp (
    found-set_condition, ready-type, available-type, progressing-type, degraded-type, ready-status,
  )

  found-available : found "Available" updated ≡ some (truth (ltb_ℤ (pos 0) count))
  found-available = simp (
    found-set_condition, ready-type, available-type, progressing-type, degraded-type,
    available-status,
  )

  found-progressing : found "Progressing" updated ≡ some (truth (not (eqb_ℤ count desired)))
  found-progressing = simp (
    found-set_condition, ready-type, available-type, progressing-type, degraded-type,
    progressing-status,
  )

  found-degraded : found "Degraded" updated ≡ some (truth (not (eqb_ℤ count desired)))
  found-degraded = simp (
    found-set_condition, ready-type, available-type, progressing-type, degraded-type,
    degraded-status,
  )

-- A status that speaks of `count` ready brokers where `desired` are wanted.
pub record IsCoherent (s : ClusterStatus) (desired count : ℤ) : Type 0 where
  pub counted : s.ready_replicas ≡ count
  pub wanted : s.replicas ≡ desired
  pub runs : (s.phase ≡ running) ↔ (count ≡ desired)
  pub is_ready : (reported "Ready" s.conditions ≡ some "True") ↔ (count ≡ desired)
  pub is_available : (reported "Available" s.conditions ≡ some "True") ↔ (pos 0 <ℤ count)
  pub progresses : (reported "Progressing" s.conditions ≡ some "True") ↔ (count ≢ desired)
  pub is_degraded : (reported "Degraded" s.conditions ≡ some "True") ↔ (count ≢ desired)

truth_iff : (b : Bool) → (some (truth b) ≡ some "True") ↔ (b ≡ true)
truth_iff true = (λ h. refl, λ h. refl)
truth_iff false = (λ h. cc, λ h. cc)

running_iff : (desired count : ℤ) → (observed_phase desired count ≡ running) ↔ (count ≡ desired)
unfolding observed_phase
running_iff desired count = ground (arith, eqb_ℤ_iff count desired)

not_eqb_iff : (a b : ℤ) → (not (eqb_ℤ a b) ≡ true) ↔ (a ≢ b)
not_eqb_iff a b = ground (arith, eqb_ℤ_iff a b)

ltb_ℤ_iff : (a b : ℤ) → (ltb_ℤ a b ≡ true) ↔ (a <ℤ b)
ltb_ℤ_iff a b = ground arith

-- The condition that reads `b` is "True" exactly if what `b` decides holds.
says :
    {P : Type 0} (kind : String) (cs : List ConditionFields) (b : Bool)
    → found kind cs ≡ some (truth b)
    → (b ≡ true) ↔ P
    → (reported kind (map into_cluster_condition cs) ≡ some "True") ↔ P
says kind cs b e p = (
  λ h. p.0 ((truth_iff b).0 (cc (reported-into kind cs))),
  λ h. reported-into kind cs ∙ e ∙ (truth_iff b).1 (p.1 h),
)

-- The status that is published for `count` ready pods says that the cluster runs, and that it is
-- ready, exactly if `count` is the number of replicas asked for; that it is progressing, and that it
-- is degraded, exactly if it is not; and that it is available exactly if `count` is positive,
-- whatever conditions were published before.
pub observed_status-IsCoherent :
    (now : String) (cluster : StreamlineCluster) (namespace : String) (count : ℤ)
    → IsCoherent (observed_status now cluster namespace count) cluster.spec.replicas count
unfolding observed_status seeded_conditions
observed_status-IsCoherent now cluster namespace count =
    let desired = cluster.spec.replicas in
    let cs = seeded_conditions cluster in
    let news = set_all cs (observed_conditions now desired count) in
    let (t, e) = stamp-put now cluster (
      status_with cluster (observed_phase desired count) count (broker_endpoints cluster namespace)
        (observed_conditions now desired count)) in
    rw e (record {
      counted = refl;
      wanted = refl;
      runs = running_iff desired count;
      is_ready =
          says "Ready" news (eqb_ℤ count desired) (found-ready now cs desired count)
            (eqb_ℤ_iff count desired);
      is_available =
          says "Available" news (ltb_ℤ (pos 0) count) (found-available now cs desired count)
            (ltb_ℤ_iff (pos 0) count);
      progresses =
          says "Progressing" news (not (eqb_ℤ count desired))
            (found-progressing now cs desired count) (not_eqb_iff count desired);
      is_degraded =
          says "Degraded" news (not (eqb_ℤ count desired)) (found-degraded now cs desired count)
            (not_eqb_iff count desired);
    })
