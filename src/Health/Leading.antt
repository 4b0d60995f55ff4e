-- ===== src/Health/Leading.antt =====
-- What the probes and the leader gauge of src/health.rs can say at once, between any two stores of the
-- process.
use streamline_operator.Base.{Bool, true, List, [], ◌∷◌, ◌++◌, ◌≡◌, refl, ◌⊎◌, inl, inr, arith}
use streamline_operator.Metrics.{is_leader}
use streamline_operator.Health.{
  ReadinessState, Store, apply_store, run, mark_unready, readyz, leaderz,
}
use streamline_operator.Health.Process.{
  Task, storing, controller_task, Moves, ends, stores, other, Stage, waiting, claiming, running,
  ending, Reached, moved,
}
use streamline_operator.Health.Process.Declines.{IsUnreadying, IsClaiming}
use streamline_operator.Health.Process.Stages.{IsSpawned, Fits, fits}

leads : (s : ReadinessState) → leaderz s ≡ 200 → s.leader ≡ true
unfolding leaderz
leads s h = ground arith

is_ready : (s : ReadinessState) → s.ready ≡ true → readyz s ≡ 200
unfolding readyz
is_ready s up = rw up refl

abbrev Shows : List Store → ReadinessState → List Task → Type 0
Shows rest s ts =
    ((readyz s ≡ 200) ⊎ IsUnreadying rest ts) × ((is_leader s.metrics ≡ true) ⊎ IsClaiming rest)

IsSpawned-Shows :
    (rest : List Store) (s : ReadinessState) (ts : List Task)
    → IsSpawned rest s ts
    → s.leader ≡ true
    → Shows rest s ts
IsSpawned-Shows rest s ts h l = (
  elim (h.ready_up l) [ inl up ↦ inl (is_ready s up) | inr between ↦ inr between ],
  inl (h.gauge_up l),
)

by_stage :
    (e : Bool) (stage : Stage) (rest : List Store) (s : ReadinessState) (ts : List Task)
    → Fits e stage rest s ts
    → s.leader ≡ true
    → Shows rest s ts
by_stage e waiting rest s ts (none_yet, down, at) l = cc (l, down)
by_stage e claiming rest s ts (none_yet, up, inl (q, down)) l = cc (l, down)
by_stage e claiming rest s ts (none_yet, up, inr (inl (more, q, c))) l =
    (inl (is_ready s up), inr (more, q))
by_stage e claiming rest s ts (none_yet, up, inr (inr (c, shown))) l =
    (inl (is_ready s up), inl shown)
by_stage e running rest s ts (q, h) l = IsSpawned-Shows rest s ts h l
by_stage e ending rest s ts (h, at) l = IsSpawned-Shows rest s ts h l

-- Between any two stores of the process, with or without leader election, and however the controllers
-- and the renewal of the Lease end meanwhile: a replica that answers 200 on /leaderz answers 200 on
-- /readyz too, unless `main` or a task stands between the two stores of `mark_unready`; and its leader
-- gauge is up, unless `main` stands between the two stores of `mark_leader`.
pub leader_is_ready :
    {e : Bool} {stage : Stage} {rest : List Store} {s : ReadinessState} {ts : List Task}
    → Reached e stage rest s ts
    → leaderz s ≡ 200
    → ((readyz s ≡ 200) ⊎ IsUnreadying rest ts) × ((is_leader s.metrics ≡ true) ⊎ IsClaiming rest)
leader_is_ready r h = by_stage _ _ _ _ _ (fits r) (leads _ h)

-- Once `main` has left its `select!` and made the two stores of its last `mark_unready`, both endpoints
-- answer 503, whatever the tasks that still run have stored and store after that.
pub ended_answers_503 :
    {e : Bool} {s : ReadinessState} {ts : List Task}
    → Reached e ending [] s ts
    → (readyz s ≡ 503) × (leaderz s ≡ 503)
unfolding readyz leaderz
ended_answers_503 r = elim (fits r).1 [
  | inl q ↦ cc q
  | inr (inl (q, off)) ↦ cc q
  | inr (inr (q, off, down)) ↦ (rw off refl, rw down refl)
]

Moves-at :
    (before : List Task) {s u : ReadinessState} {ts us : List Task}
    → Moves s ts u us
    → Moves s (before ++ ts) u (before ++ us)
Moves-at [] m = m
Moves-at (t ∷ before) m = other (Moves-at before m)

-- When one of the controllers of a replica that answers 200 on /leaderz ends while the process runs, the
-- flags come to where both endpoints answer 503, while the leader gauge stays up.
pub gauge_outlives_leadership :
    {e : Bool} {s : ReadinessState} (before after : List Task)
    → Reached e running [] s (before ++ (controller_task ∷ after))
    → leaderz s ≡ 200
    → let t = run mark_unready s in
      Reached e running [] t (before ++ (storing [] ∷ after))
      × (leaderz t ≡ 503)
      × (readyz t ≡ 503)
      × (is_leader t.metrics ≡ true)
unfolding apply_store readyz leaderz
gauge_outlives_leadership {s = s} before after r h =
    let ended = moved r (Moves-at before ends) in
    let half_way = moved ended (Moves-at before stores) in
    (moved half_way (Moves-at before stores), refl, refl, (fits r).1.gauge_up (leads s h))
