-- ===== src/Health/Process.antt =====
-- src/main.rs: the tasks that write the flags of src/health.rs, and how their stores interleave.
pub mod Declines
pub mod Stages
use streamline_operator.Base.{Bool, true, false, List, [], ◌∷◌, ◌++◌}
use streamline_operator.Health.{
  ReadinessState, new_state, Store, transition, apply_store, mark_ready, mark_unready, mark_leader,
  mark_standby,
}

-- A spawned task, with the stores that it makes when its loop ends, or with those that it still has to
-- make once that has ended.
pub data Task : Type 0 where
  watching storing : List Store → Task

-- `spawn_controller!`
abbrev pub controller_task : Task
controller_task = watching mark_unready

-- The renewal of the Lease; without leader election it is pending forever.
abbrev pub renewal_tasks : Bool → List Task
renewal_tasks true = watching mark_standby ∷ []
renewal_tasks false = []

abbrev pub spawned_tasks : Bool → List Task
spawned_tasks leader_election =
    controller_task ∷ controller_task ∷ controller_task ∷ renewal_tasks leader_election

-- An acquired Lease counts as a transition.
abbrev pub counted : Bool → List Store
counted true = transition ∷ []
counted false = []

-- What `main` stores as the active replica, once it holds the Lease or needs none.
abbrev pub claim : Bool → List Store
claim leader_election = mark_leader ++ counted leader_election

-- One of the tasks goes on: its loop ends, or it makes its next store.
pub data Moves : ReadinessState → List Task → ReadinessState → List Task → Type 0 where
  ends :
      {s : ReadinessState} {p : List Store} {ts : List Task}
      → Moves s (watching p ∷ ts) s (storing p ∷ ts)
  stores :
      {s : ReadinessState} {x : Store} {p : List Store} {ts : List Task}
      → Moves s (storing (x ∷ p) ∷ ts) (apply_store x s) (storing p ∷ ts)
  other :
      {s u : ReadinessState} {t : Task} {ts us : List Task}
      → Moves s ts u us
      → Moves s (t ∷ ts) u (t ∷ us)

-- Where `main` stands: before it is the active replica, becoming it, with the tasks running, and past
-- the `select!`.
pub data Stage : Type 0 where
  waiting claiming running ending : Stage

-- What `main` can reach: its stage, the stores it has still to make in it, the flags, and the tasks. The
-- `select!` may end at any time, since the shutdown signal may come at any time; the tasks go on then. An
-- error of `acquire` or of the HTTP client's builder ends the process, and a task that panics stores
-- nothing more, so neither adds a state.
pub data Reached (leader_election : Bool)
    : Stage → List Store → ReadinessState → List Task → Type 0 where
  start : Reached leader_election waiting mark_ready new_state []
  main_stores :
      {stage : Stage} {x : Store} {rest : List Store} {s : ReadinessState} {ts : List Task}
      → Reached leader_election stage (x ∷ rest) s ts
      → Reached leader_election stage rest (apply_store x s) ts
  acquired :
      {s : ReadinessState} {ts : List Task}
      → Reached leader_election waiting [] s ts
      → Reached leader_election claiming (claim leader_election) s ts
  spawned :
      {s : ReadinessState} {ts : List Task}
      → Reached leader_election claiming [] s ts
      → Reached leader_election running [] s (spawned_tasks leader_election)
  moved :
      {stage : Stage} {rest : List Store} {s u : ReadinessState} {ts us : List Task}
      → Reached leader_election stage rest s ts
      → Moves s ts u us
      → Reached leader_election stage rest u us
  selected :
      {s : ReadinessState} {ts : List Task}
      → Reached leader_election running [] s ts
      → Reached leader_election ending mark_unready s ts
