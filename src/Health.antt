-- ===== src/Health.antt =====
-- src/health.rs: the flags that the probe endpoints answer from, and the stores that change them. The
-- probe and metrics servers run beside them and can answer between any two stores.
pub mod Process
pub mod Leading
use streamline_operator.Base.{ℕ, String, str_eq, Bool, true, false, List, [], ◌∷◌, if◌then◌else◌}
use streamline_operator.Metrics.{OperatorMetrics, new_metrics, set_leader, inc_leader_transition}

-- `ReadinessState`, with the process-wide metrics that two of its methods write.
pub record ReadinessState : Type 0 where
  pub ready : Bool
  pub leader : Bool
  pub metrics : OperatorMetrics

abbrev pub new_state : ReadinessState
new_state = record { ready = false; leader = false; metrics = new_metrics }

-- One atomic write: to a flag, to the leader gauge, or to the counter of the leader transitions.
pub data Store : Type 0 where
  ready_to leader_to gauge_to : Bool → Store
  transition : Store

unfoldable pub apply_store : Store → ReadinessState → ReadinessState
apply_store (ready_to b) s = record s { ready = b }
apply_store (leader_to b) s = record s { leader = b }
apply_store (gauge_to b) s = record s { metrics = set_leader b s.metrics }
apply_store transition s = record s { metrics = inc_leader_transition s.metrics }

-- The stores one after the other, with none of another task in between.
abbrev pub run : List Store → ReadinessState → ReadinessState
run [] s = s
run (x ∷ rest) s = run rest (apply_store x s)

-- The stores of each method, in order.
abbrev pub mark_ready : List Store
mark_ready = ready_to true ∷ []

abbrev pub mark_unready : List Store
mark_unready = ready_to false ∷ leader_to false ∷ []

abbrev pub mark_leader : List Store
mark_leader = leader_to true ∷ gauge_to true ∷ []

abbrev pub mark_standby : List Store
mark_standby = leader_to false ∷ gauge_to false ∷ []

-- The status codes of the endpoints.
unfoldable pub readyz : ReadinessState → ℕ
readyz s = if s.ready then 200 else 503

unfoldable pub leaderz : ReadinessState → ℕ
leaderz s = if s.leader then 200 else 503

-- The routes of `router`; axum answers 404 elsewhere.
unfoldable pub route : String → ReadinessState → ℕ
unfolding readyz leaderz
route path s =
    if str_eq path "/healthz"
    then 200
    else if str_eq path "/readyz"
    then readyz s
    else if str_eq path "/leaderz"
    then leaderz s
    else 404
