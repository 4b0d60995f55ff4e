-- ===== src/Health/Process/Stages.antt =====
-- What holds of the flags of src/health.rs at each stage of `main` of src/main.rs.
use streamline_operator.Base.{
  Bool, true, false, List, [], ◌∷◌, ◌≡◌, refl, ◌⊎◌, Bool-cases, inl, inr,
}
use streamline_operator.Runtime.Traces.{All}
use streamline_operator.Metrics.{is_leader, set_leader, inc_leader_transition}
use streamline_operator.Health.{
  ReadinessState, Store, leader_to, gauge_to, transition, apply_store, mark_ready, mark_unready,
}
use streamline_operator.Health.Process.{
  Task, spawned_tasks, claim, counted, Moves, ends, stores, other, Stage, waiting, claiming,
  running, ending, Reached, start, main_stores, acquired, spawned, moved, selected,
}
use streamline_operator.Health.Process.Declines.{
  IsUnreadying, IsTask, controls, renews, AreTasks-later, declines, tasks_stay,
}

-- Once the tasks run.
pub record IsSpawned (rest : List Store) (s : ReadinessState) (ts : List Task) : Type 0 where
  pub tasks : All (IsTask s) ts
  pub gauge_up : s.leader ≡ true → is_leader s.metrics ≡ true
  pub ready_up : s.leader ≡ true → (s.ready ≡ true) ⊎ IsUnreadying rest ts

abbrev pub Counts : List Store → Type 0
Counts rest = All (λ x. x ≡ transition) rest

-- What holds at each stage.
abbrev pub Fits : Bool → Stage → List Store → ReadinessState → List Task → Type 0
Fits e waiting rest s ts =
    (ts ≡ []) × (s.leader ≡ false) × ((rest ≡ mark_ready) ⊎ ((rest ≡ []) × (s.ready ≡ true)))
Fits e claiming rest s ts =
    (ts ≡ [])
    × (s.ready ≡ true)
    × (((rest ≡ claim e) × (s.leader ≡ false))
        ⊎ ((more : List Store) × (rest ≡ gauge_to true ∷ more) × Counts more)
        ⊎ (Counts rest × (is_leader s.metrics ≡ true)))
Fits e running rest s ts = (rest ≡ []) × IsSpawned rest s ts
Fits e ending rest s ts =
    IsSpawned rest s ts
    × ((rest ≡ mark_unready)
        ⊎ ((rest ≡ leader_to false ∷ []) × (s.ready ≡ false))
        ⊎ ((rest ≡ []) × (s.ready ≡ false) × (s.leader ≡ false)))

uncons : {x y : Store} {xs ys : List Store} → x ∷ xs ≡ y ∷ ys → (x ≡ y) × (xs ≡ ys)
uncons e = (cc e, cc e)

counted-Counts : (e : Bool) → Counts (counted e)
counted-Counts true = (refl, tt)
counted-Counts false = tt

main_steps :
    (e : Bool) (stage : Stage) (x : Store) (rest : List Store) (s : ReadinessState) (ts : List Task)
    → Fits e stage (x ∷ rest) s ts
    → Fits e stage rest (apply_store x s) ts
unfolding apply_store set_leader is_leader inc_leader_transition
main_steps e waiting x rest s ts (none_yet, down, inl q) =
    rw ((uncons q).0, (uncons q).1) (none_yet, down, inr (refl, refl))
main_steps e waiting x rest s ts (none_yet, down, inr (q, up)) = cc q
main_steps e claiming x rest s ts (none_yet, up, inl (q, down)) =
    rw ((uncons q).0, (uncons q).1) (none_yet, up, inr (inl (counted e, refl, counted-Counts e)))
main_steps e claiming x rest s ts (none_yet, up, inr (inl (more, q, counts))) =
    rw ((uncons q).0, (uncons q).1) (none_yet, up, inr (inr (counts, refl)))
main_steps e claiming x rest s ts (none_yet, up, inr (inr ((q, counts), shown))) =
    rw q (none_yet, up, inr (inr (counts, shown)))
main_steps e running x rest s ts (q, h) = cc q
main_steps e ending x rest s ts (h, inl q) =
    rw ((uncons q).0, (uncons q).1)
      (
        record {
          tasks = AreTasks-later _ _ ts (λ d. d) h.tasks;
          gauge_up = h.gauge_up;
          ready_up = λ l. inr (inl refl);
        },
        inr (inl (refl, refl)),
      )
main_steps e ending x rest s ts (h, inr (inl (q, off))) =
    rw ((uncons q).0, (uncons q).1)
      (
        record {
          tasks = AreTasks-later _ _ ts (λ d. refl) h.tasks;
          gauge_up = λ l. cc l;
          ready_up = λ l. cc l;
        },
        inr (inr (refl, off, refl)),
      )
main_steps e ending x rest s ts (h, inr (inr (q, off, down))) = cc q

IsSpawned-Moves :
    {rest : List Store} {s u : ReadinessState} {ts us : List Task}
    → Moves s ts u us
    → IsSpawned rest s ts
    → IsSpawned rest u us
IsSpawned-Moves {s = s} {u = u} m h =
    let d = declines m h.tasks in
    let still : u.leader ≡ true → s.leader ≡ true =
      λ l. elim (Bool-cases s.leader) [ inl up ↦ up | inr down ↦ cc (l, d.standby_stays down) ] in
    record {
      tasks = tasks_stay m h.tasks;
      gauge_up = λ l. d.gauge_stays l (h.gauge_up (still l));
      ready_up = λ l. elim (h.ready_up (still l)) [
        | inl up ↦ elim (d.ready_stays l up) [ inl on ↦ inl on | inr there ↦ inr (inr there) ]
        | inr (inl main) ↦ inr (inl main)
        | inr (inr task) ↦ inr (inr (d.half_stays l task))
      ];
    }

no-Moves : {s u : ReadinessState} {ts us : List Task} → ts ≡ [] → Moves s ts u us → ⊥
no-Moves q ends = cc q
no-Moves q stores = cc q
no-Moves q (other m) = cc q

Moves-fit :
    (e : Bool) (stage : Stage) (rest : List Store) {s u : ReadinessState} {ts us : List Task}
    → Moves s ts u us
    → Fits e stage rest s ts
    → Fits e stage rest u us
Moves-fit e waiting rest m h = absurd (no-Moves h.0 m)
Moves-fit e claiming rest m h = absurd (no-Moves h.0 m)
Moves-fit e running rest m (q, h) = (q, IsSpawned-Moves m h)
Moves-fit e ending rest m (h, at) =
    let d = declines m h.tasks in
    (
      IsSpawned-Moves m h,
      elim at [
        | inl q ↦ inl q
        | inr (inl (q, off)) ↦ inr (inl (q, d.unready_stays off))
        | inr (inr (q, off, down)) ↦ inr (inr (q, d.unready_stays off, d.standby_stays down))
      ],
    )

spawned-AreTasks : (e : Bool) (s : ReadinessState) → All (IsTask s) (spawned_tasks e)
spawned-AreTasks true s = (controls, (controls, (controls, (renews, tt))))
spawned-AreTasks false s = (controls, (controls, (controls, tt)))

IsUnreadying-later :
    (s : ReadinessState) (ts : List Task)
    → (s.ready ≡ true) ⊎ IsUnreadying [] ts
    → (s.ready ≡ true) ⊎ IsUnreadying mark_unready ts
IsUnreadying-later s ts (inl up) = inl up
IsUnreadying-later s ts (inr (inl q)) = cc q
IsUnreadying-later s ts (inr (inr task)) = inr (inr task)

pub fits :
    {e : Bool} {stage : Stage} {rest : List Store} {s : ReadinessState} {ts : List Task}
    → Reached e stage rest s ts
    → Fits e stage rest s ts
fits start = (refl, refl, inl refl)
fits (main_stores r) = main_steps _ _ _ _ _ _ (fits r)
fits (acquired r) =
    let (none_yet, down, at) = fits r in
    elim at [ inl q ↦ cc q | inr (q, up) ↦ (none_yet, up, inl (refl, down)) ]
fits (spawned r) =
    let (none_yet, up, at) = fits r in
    (
      refl,
      record {
        tasks = spawned-AreTasks _ _;
        gauge_up = λ l. elim at [
          | inl (q, down) ↦ cc q
          | inr (inl (more, q, c)) ↦ cc q
          | inr (inr (c, shown)) ↦ shown
        ];
        ready_up = λ l. inl up;
      },
    )
fits (moved r m) = Moves-fit _ _ _ m (fits r)
fits (selected {s = s} {ts = ts} r) =
    let h = (fits r).1 in
    (
      record {
        tasks = h.tasks;
        gauge_up = h.gauge_up;
        ready_up = λ l. IsUnreadying-later s ts (h.ready_up l);
      },
      inl refl,
    )
