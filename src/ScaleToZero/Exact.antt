-- ===== src/ScaleToZero/Exact.antt =====
-- When a cluster is scaled to zero, said of the metrics that its snapshot is built from, and what a
-- decision lets through to the StatefulSet.
use streamline_operator.Base.{
  ℕ, ◌-◌, ◌^◌, ◌≤◌, ◌<◌, ◌≡◌, refl, String, Bool, true, false, ◌&&◌, Option, none, some, List, ◌∷◌,
  ◌↔◌, ◌⊎◌, Result, leb, ◌==◌, arith, inl, inr, subst, sym,
}
use streamline_operator.Base.Int.{ℤ, pos, pos_part, ◌-ℤ◌, as_i64, eqb_ℤ_iff}
use streamline_operator.Base.Float.{Floats}
use streamline_operator.Crd.Cluster.{StreamlineCluster}
use streamline_operator.Runtime.{KubeError, World, kube, pure}
use streamline_operator.ScaleToZero.{
  ScaleToZeroConfig, ScaleToZeroAction, scale_to_zero, activate, Now, ScaleCall, patch_replicas,
  ClusterActivitySnapshot, cooling, evaluate, build_activity_snapshot, apply_scale_action,
}

-- What the metrics of a cluster say, and when it was last active.
pub record Readings (floats : Floats) : Type 0 where
  pub messages_per_second : floats.F64
  pub bytes_per_second : floats.F64
  pub active_connections : ℕ
  pub consumer_lag : ℤ
  pub last_activity : ℕ

abbrev pub instant : (ℤ → String) → ℕ → Now
instant rfc3339_of now = record { epoch = pos now; rfc3339 = rfc3339_of (pos now) }

-- The snapshot of the readings at second `now`, with the timeout of the configuration.
abbrev pub snapshot :
    (floats : Floats)
    → (ℤ → String)
    → ℕ
    → ScaleToZeroConfig
    → Readings floats
    → ClusterActivitySnapshot floats
snapshot floats rfc3339_of now config r =
    build_activity_snapshot floats (instant rfc3339_of now) rfc3339_of "main" "shop"
      r.messages_per_second r.bytes_per_second r.active_connections r.consumer_lag
      (pos r.last_activity) config.idle_timeout_seconds

-- The decision at second `now` on the snapshot of the readings at that second.
abbrev pub decision :
    (floats : Floats)
    → (ℤ → String)
    → ℕ
    → ScaleToZeroConfig
    → Readings floats
    → ℤ
    → Option ℕ
    → ScaleToZeroAction
decision floats rfc3339_of now config r replicas last_up =
    evaluate floats (instant rfc3339_of now) (snapshot floats rfc3339_of now config r) config
      replicas last_up

-- No messages and no connections, and the last activity is at least the timeout ago.
pub record IsQuiet (floats : Floats) (r : Readings floats) (now timeout : ℕ) : Type 0 where
  pub no_messages : floats.eqb r.messages_per_second (floats.literal 0 1) ≡ true
  pub no_connections : r.active_connections ≡ 0
  pub long_enough : timeout ≤ now - r.last_activity

-- The last scale-up, if there was one, is at least the cooldown ago.
abbrev pub IsCool : Option ℕ → ℕ → ℕ → Type 0
IsCool none now cooldown = Unit {0}
IsCool (some up) now cooldown = cooldown ≤ now - up

pub elapsed-as_i64 :
    (n l : ℕ) → n < 2 ^ 63 → l < 2 ^ 63 → pos_part (as_i64 (pos n -ℤ pos l)) ≡ n - l
elapsed-as_i64 n l hn hl = ground arith

cooling_iff :
    (n cooldown : ℕ) (last : Option ℕ)
    → (cooling (pos n) cooldown last ≡ none) ↔ IsCool last n cooldown
cooling_iff n cooldown none = (λ h. tt, λ h. refl)
cooling_iff n cooldown (some up) = ground arith

zero_iff :
    (floats : Floats) (now : Now) (snap : ClusterActivitySnapshot floats)
    (config : ScaleToZeroConfig) (replicas : ℤ) (last_up : Option ℕ)
    → ((evaluate floats now snap config replicas last_up).action ≡ scale_to_zero) ↔ (
        (config.enabled ≡ true)
        × (snap.is_idle ≡ true)
        × (leb config.idle_timeout_seconds snap.idle_duration_seconds ≡ true)
        × (cooling now.epoch config.cooldown_seconds last_up ≡ none))
unfolding evaluate
zero_iff floats now snap config replicas last_up = ground arith

leb_iff : (m n : ℕ) → (leb m n ≡ true) ↔ (m ≤ n)
leb_iff m n = ground arith

quiet_test :
    (b : Bool) (c t d : ℕ) → (b && c == 0 && leb t d ≡ true) ↔ ((b ≡ true) × (c ≡ 0) × (t ≤ d))
quiet_test b c t d = ground arith

wakes :
    (floats : Floats) (now : Now) (snap : ClusterActivitySnapshot floats)
    (config : ScaleToZeroConfig) (replicas : ℤ) (last_up : Option ℕ)
    → (evaluate floats now snap config replicas last_up).action ≡ activate
    → (config.enabled ≡ true)
      × (replicas ≡ pos 0)
      × (snap.is_idle ≡ false)
      × ((evaluate floats now snap config replicas last_up).target_replicas
          ≡ config.min_active_replicas)
unfolding evaluate
wakes floats now snap config replicas last_up = ground (arith, eqb_ℤ_iff replicas (pos 0))

sleeps :
    (floats : Floats) (now : Now) (snap : ClusterActivitySnapshot floats)
    (config : ScaleToZeroConfig) (replicas : ℤ) (last_up : Option ℕ)
    → (evaluate floats now snap config replicas last_up).action ≡ scale_to_zero
    → (evaluate floats now snap config replicas last_up).target_replicas ≡ pos 0
unfolding evaluate
sleeps floats now snap config replicas last_up = ground arith

applied :
    (server : List ScaleCall → ScaleCall → Result KubeError (Unit {0}))
    (cluster : StreamlineCluster) (namespace : String) (a : ScaleToZeroAction) (w : World ScaleCall)
    → ((apply_scale_action server cluster namespace a w).1 ≡ w)
      ⊎ (((a.action ≡ scale_to_zero) ⊎ (a.action ≡ activate))
          × ((apply_scale_action server cluster namespace a w).1.trace
              ≡ patch_replicas namespace cluster.metadata.name_any a.target_replicas ∷ w.trace))
unfolding apply_scale_action pure kube
applied server cluster namespace a w = ground arith

-- What a decision lets through to the StatefulSet: the replicas that it may be patched to.
pub data IsPermitted (floats : Floats) (config : ScaleToZeroConfig) (r : Readings floats) (now : ℕ)
    (replicas : ℤ) (last_up : Option ℕ) : ℤ → Type 0 where
  asleep :
      config.enabled ≡ true
      → IsQuiet floats r now config.idle_timeout_seconds
      → IsCool last_up now config.cooldown_seconds
      → IsPermitted floats config r now replicas last_up (pos 0)
  woken :
      config.enabled ≡ true
      → replicas ≡ pos 0
      → ¬ IsQuiet floats r now config.idle_timeout_seconds
      → IsPermitted floats config r now replicas last_up config.min_active_replicas

module _ (floats : Floats) (rfc3339_of : ℤ → String) (config : ScaleToZeroConfig)
    (r : Readings floats) (now : ℕ) (now_fits : now < 2 ^ 63)
    (last_fits : r.last_activity < 2 ^ 63) where
  pub idle_duration :
      (snapshot floats rfc3339_of now config r).idle_duration_seconds ≡ now - r.last_activity
  unfolding build_activity_snapshot
  idle_duration = elapsed-as_i64 now r.last_activity now_fits last_fits

  pub idle_iff :
      ((snapshot floats rfc3339_of now config r).is_idle ≡ true)
      ↔ IsQuiet floats r now config.idle_timeout_seconds
  unfolding build_activity_snapshot
  idle_iff =
      let test =
        quiet_test (floats.eqb r.messages_per_second (floats.literal 0 1)) r.active_connections
          config.idle_timeout_seconds
          (snapshot floats rfc3339_of now config r).idle_duration_seconds in
      (
        λ h.
            let (no_messages, no_connections, enough) = test.0 h in
            record {
              no_messages = no_messages;
              no_connections = no_connections;
              long_enough = rw idle_duration at enough;
            },
        λ q. test.1 (q.no_messages, q.no_connections, rw idle_duration q.long_enough),
      )

  -- With the snapshot taken at the moment of the decision and the times below 2 ^ 63, a cluster is scaled
  -- to zero exactly when the policy is enabled, there are no messages and no connections, the last
  -- activity is at least the idle timeout ago, and so is the last scale-up by the cooldown. What the
  -- replicas are at the moment plays no part.
  pub scales_to_zero_iff :
      (replicas : ℤ) (last_up : Option ℕ)
      → ((decision floats rfc3339_of now config r replicas last_up).action ≡ scale_to_zero) ↔ (
          (config.enabled ≡ true)
          × IsQuiet floats r now config.idle_timeout_seconds
          × IsCool last_up now config.cooldown_seconds)
  scales_to_zero_iff replicas last_up =
      let z =
        zero_iff floats (instant rfc3339_of now) (snapshot floats rfc3339_of now config r) config
          replicas last_up in
      let cool = cooling_iff now config.cooldown_seconds last_up in
      (
        λ h. let (on, idle, enough, cold) = z.0 h in (on, idle_iff.0 idle, cool.0 cold),
        λ h.
            let (on, q, c) = h in
            z.1 (
              on,
              idle_iff.1 q,
              (leb_iff config.idle_timeout_seconds
                    (snapshot floats rfc3339_of now config r).idle_duration_seconds).1
                  (rw idle_duration q.long_enough),
              cool.1 c,
            ),
      )

  -- With the snapshot taken at the moment of the decision and the times below 2 ^ 63, applying a
  -- decision either leaves everything as it was or makes one call, which patches the replicas of the
  -- cluster's StatefulSet: to zero, where the policy is enabled, the cluster is quiet and the cooldown is
  -- over, or to the configured minimum, where the policy is enabled, there are no replicas and the
  -- cluster is not quiet. Whatever the server answers, no other call follows.
  pub apply_scale_action-IsPermitted :
      (server : List ScaleCall → ScaleCall → Result KubeError (Unit {0}))
      (cluster : StreamlineCluster) (namespace : String) (replicas : ℤ) (last_up : Option ℕ)
      (w : World ScaleCall)
      → ((apply_scale_action server cluster namespace
            (decision floats rfc3339_of now config r replicas last_up)
            w).1
          ≡ w)
        ⊎ ((target : ℤ) × ((apply_scale_action server cluster namespace
                (decision floats rfc3339_of now config r replicas last_up)
                w).1.trace
              ≡ patch_replicas namespace cluster.metadata.name_any target ∷ w.trace)
            × IsPermitted floats config r now replicas last_up target)
  apply_scale_action-IsPermitted server cluster namespace replicas last_up w =
      let d = decision floats rfc3339_of now config r replicas last_up in
      let snap = snapshot floats rfc3339_of now config r in
      elim (applied server cluster namespace d w) [
        | inl same ↦ inl same
        | inr (inl zero, patched) ↦
            let (on, quiet, cool) = (scales_to_zero_iff replicas last_up).0 zero in
            let target = sleeps floats (instant rfc3339_of now) snap config replicas last_up zero in
            inr (
              d.target_replicas,
              patched,
              subst (IsPermitted floats config r now replicas last_up) (sym target)
                  (asleep on quiet cool),
            )
        | inr (inr up, patched) ↦
            let (on, at_zero, awake, target) =
              wakes floats (instant rfc3339_of now) snap config replicas last_up up in
            inr (
              d.target_replicas,
              patched,
              subst (IsPermitted floats config r now replicas last_up) (sym target)
                  (woken on at_zero (λ quiet. cc (awake, idle_iff.1 quiet))),
            )
      ]
