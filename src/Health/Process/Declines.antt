-- ===== src/Health/Process/Declines.antt =====
-- What a task of src/main.rs can be at, and what none of its stores to the flags of src/health.rs undoes.
use streamline_operator.Base.{true, false, List, [], ◌∷◌, ◌≡◌, refl, ◌⊎◌, ◌≢◌, inl, inr, Has}
use streamline_operator.Runtime.Traces.{All}
use streamline_operator.Metrics.{is_leader, set_leader}
use streamline_operator.Health.{ReadinessState, Store, ready_to, leader_to, gauge_to, apply_store}
use streamline_operator.Health.Process.{Task, watching, storing, Moves, ends, stores, other}

-- A task that stands between the two stores of `mark_unready`.
abbrev pub half_unready : Task
half_unready = storing (leader_to false ∷ [])

-- `main` or a task stands between the two stores of `mark_unready`.
abbrev pub IsUnreadying : List Store → List Task → Type 0
IsUnreadying rest ts = (rest ≡ leader_to false ∷ []) ⊎ Has half_unready ts

-- `main` stands between the two stores of `mark_leader`.
abbrev pub IsClaiming : List Store → Type 0
IsClaiming rest = (more : List Store) × (rest ≡ gauge_to true ∷ more)

-- What a task can be at, with those flags.
pub data IsTask (s : ReadinessState) : Task → Type 0 where
  controls : IsTask s (watching (ready_to false ∷ leader_to false ∷ []))
  renews : IsTask s (watching (leader_to false ∷ gauge_to false ∷ []))
  unready : IsTask s (storing (ready_to false ∷ leader_to false ∷ []))
  half : IsTask s (storing (leader_to false ∷ []))
  standby : IsTask s (storing (leader_to false ∷ gauge_to false ∷ []))
  gauge : s.leader ≡ false → IsTask s (storing (gauge_to false ∷ []))
  done : IsTask s (storing [])

-- What a move does not undo, and what it leaves to a replica that still leads.
pub record IsDecline (s u : ReadinessState) (ts us : List Task) : Type 0 where
  pub unready_stays : s.ready ≡ false → u.ready ≡ false
  pub standby_stays : s.leader ≡ false → u.leader ≡ false
  pub gauge_stays : u.leader ≡ true → is_leader s.metrics ≡ true → is_leader u.metrics ≡ true
  pub ready_stays : u.leader ≡ true → (s.ready ≡ true) → (u.ready ≡ true) ⊎ Has half_unready us
  pub half_stays : u.leader ≡ true → Has half_unready ts → Has half_unready us

past_head :
    {t : Task} (ts : List Task) → half_unready ≢ t → Has half_unready (t ∷ ts) → Has half_unready ts
past_head ts differs (inl here) = absurd (differs here)
past_head ts differs (inr there) = there

pub declines :
    {s u : ReadinessState} {ts us : List Task}
    → Moves s ts u us
    → All (IsTask s) ts
    → IsDecline s u ts us
unfolding apply_store is_leader set_leader
declines ends (controls, h) = record {
  unready_stays = λ e. e;
  standby_stays = λ e. e;
  gauge_stays = λ l g. g;
  ready_stays = λ l r. inl r;
  half_stays = λ l m. inr (past_head _ (λ e. cc e) m);
}
declines ends (renews, h) = record {
  unready_stays = λ e. e;
  standby_stays = λ e. e;
  gauge_stays = λ l g. g;
  ready_stays = λ l r. inl r;
  half_stays = λ l m. inr (past_head _ (λ e. cc e) m);
}
declines stores (unready, h) = record {
  unready_stays = λ e. refl;
  standby_stays = λ e. e;
  gauge_stays = λ l g. g;
  ready_stays = λ l r. inr (inl refl);
  half_stays = λ l m. inl refl;
}
declines stores (half, h) = record {
  unready_stays = λ e. e;
  standby_stays = λ e. refl;
  gauge_stays = λ l g. g;
  ready_stays = λ l r. inl r;
  half_stays = λ l m. cc l;
}
declines stores (standby, h) = record {
  unready_stays = λ e. e;
  standby_stays = λ e. refl;
  gauge_stays = λ l g. g;
  ready_stays = λ l r. inl r;
  half_stays = λ l m. cc l;
}
declines stores (gauge down, h) = record {
  unready_stays = λ e. e;
  standby_stays = λ e. e;
  gauge_stays = λ l g. cc (l, down);
  ready_stays = λ l r. inl r;
  half_stays = λ l m. cc (l, down);
}
declines (other m) (t, h) =
    let d = declines m h in
    record {
      unready_stays = d.unready_stays;
      standby_stays = d.standby_stays;
      gauge_stays = d.gauge_stays;
      ready_stays = λ l r. elim (d.ready_stays l r) [ inl up ↦ inl up | inr m ↦ inr (inr m) ];
      half_stays = λ l m. elim m [ inl here ↦ inl here | inr there ↦ inr (d.half_stays l there) ];
    }

IsTask-later :
    {s u : ReadinessState} {t : Task}
    → (s.leader ≡ false → u.leader ≡ false)
    → IsTask s t
    → IsTask u t
IsTask-later down controls = controls
IsTask-later down renews = renews
IsTask-later down unready = unready
IsTask-later down half = half
IsTask-later down standby = standby
IsTask-later down (gauge off) = gauge (down off)
IsTask-later down done = done

pub AreTasks-later :
    (s u : ReadinessState) (ts : List Task)
    → (s.leader ≡ false → u.leader ≡ false)
    → All (IsTask s) ts
    → All (IsTask u) ts
AreTasks-later s u [] down h = tt
AreTasks-later s u (t ∷ ts) down (one, h) = (IsTask-later down one, AreTasks-later s u ts down h)

pub tasks_stay :
    {s u : ReadinessState} {ts us : List Task}
    → Moves s ts u us
    → All (IsTask s) ts
    → All (IsTask u) us
unfolding apply_store
tasks_stay ends (controls, h) = (unready, h)
tasks_stay ends (renews, h) = (standby, h)
tasks_stay stores (unready, h) = (half, AreTasks-later _ _ _ (λ e. e) h)
tasks_stay stores (half, h) = (done, AreTasks-later _ _ _ (λ e. refl) h)
tasks_stay stores (standby, h) = (gauge refl, AreTasks-later _ _ _ (λ e. refl) h)
tasks_stay stores (gauge down, h) = (done, AreTasks-later _ _ _ (λ e. e) h)
tasks_stay (other m) (t, h) = (IsTask-later (declines m h).standby_stays t, tasks_stay m h)
