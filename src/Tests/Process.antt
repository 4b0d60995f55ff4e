-- ===== src/Tests/Process.antt =====
-- The theorems on the process, its lease, its metrics and its conditions, each at a concrete input.
use streamline_operator.Base.{
  ◌++◌, ◌⊎◌, eq_iff, ℕ, String, true, false, some, [], ◌∷◌, ◌≡◌, ◌≢◌, ◌↔◌, ◌<◌, refl, arith, ok,
  err,
}
use streamline_operator.Metrics.{is_leader}
use streamline_operator.Conditions.{ConditionFields, build_condition, set_all}
use streamline_operator.Conditions.Stable.{set_all-set_all}
use streamline_operator.Health.{
  ReadinessState, new_state, apply_store, run, mark_ready, mark_unready, leaderz, readyz,
}
use streamline_operator.Health.Process.{
  Reached, start, main_stores, acquired, spawned, selected, running, storing, claim,
  controller_task, renewal_tasks, spawned_tasks,
}
use streamline_operator.Health.Process.Declines.{IsUnreadying, IsClaiming}
use streamline_operator.Health.Leading.{
  leader_is_ready, ended_answers_503, gauge_outlives_leadership,
}
use streamline_operator.LeaderElection.{
  LeaseEnv, get_lease, new_lease, released_lease, try_acquire, acquire,
}
use streamline_operator.LeaderElection.Acquired.{
  Wins, WinsAfter, IsClaimed, try_acquire-Wins, acquire_iff,
}
use streamline_operator.LeaderElection.Handover.{
  claimed_lease_excludes_others, released_lease_still_blocks,
}

-- A cluster without the Lease yet.
abbrev no_lease : LeaseEnv
no_lease = record {
  get = λ before. err (record { api_code = some 404; text = "not found" });
  write = λ before c. ok tt;
  now = λ before. 1000000000;
}

-- Ten seconds after `a` has claimed the Lease.
abbrev claimed_env : LeaseEnv
claimed_env = record {
  get = λ before. ok (new_lease "a" 1000000000);
  write = λ before c. ok tt;
  now = λ before. 1010000000;
}

-- Ten seconds after the claim of `a`, which has released the Lease since.
abbrev released_env : LeaseEnv
released_env = record claimed_env { get = λ before. ok (released_lease (new_lease "a" 1000000000)) }

claimed : IsClaimed "a" 1000000000 (new_lease "a" 1000000000)
unfolding new_lease
claimed = record { holder = refl; renewed = refl; duration = refl }

first_wins : (try_acquire no_lease "a" []).0 ≡ ok true
unfolding try_acquire
first_wins = refl

try_acquire-Wins_example : Wins no_lease "a" [] (try_acquire no_lease "a" [])
try_acquire-Wins_example = try_acquire-Wins no_lease "a" [] first_wins

a_is_not_b : ◌≢◌ {A = String} "a" "b"
a_is_not_b e = cc ((eq_iff "a" "b").1 e)

claimed_lease_excludes_others_example : try_acquire claimed_env "b" [] ≡ (ok false, get_lease ∷ [])
claimed_lease_excludes_others_example =
    claimed_lease_excludes_others claimed_env "b" "a" [] (new_lease "a" 1000000000) 1000000000
      claimed a_is_not_b refl (omega arith) (omega arith)

released_lease_still_blocks_example : try_acquire released_env "b" [] ≡ (ok false, get_lease ∷ [])
released_lease_still_blocks_example =
    released_lease_still_blocks released_env "b" "a" [] (new_lease "a" 1000000000) 1000000000
      claimed refl (omega arith) (omega arith)

acquire_iff_example :
    (acquire no_lease "a" 3 [] ≡ some []) ↔ ((n : ℕ) × (n < 3) × WinsAfter no_lease "a" n [] [])
acquire_iff_example = acquire_iff no_lease "a" 3 [] []

-- With leader election, after all that `main` stores before the controllers are spawned.
abbrev led : ReadinessState
led = run (mark_ready ++ claim true) new_state

leads_now : leaderz led ≡ 200
unfolding leaderz apply_store
leads_now = refl

led_Reached : Reached true running [] led (spawned_tasks true)
led_Reached = spawned (main_stores (main_stores (main_stores (acquired (main_stores start)))))

leader_is_ready_example :
    ((readyz led ≡ 200) ⊎ IsUnreadying [] (spawned_tasks true))
    × ((is_leader led.metrics ≡ true) ⊎ IsClaiming [])
leader_is_ready_example = leader_is_ready led_Reached leads_now

-- The signal comes while all tasks run.
ended_answers_503_example :
    (readyz (run mark_unready led) ≡ 503) × (leaderz (run mark_unready led) ≡ 503)
ended_answers_503_example = ended_answers_503 (main_stores (main_stores (selected led_Reached)))

-- The topic controller ends.
gauge_outlives_leadership_example :
    Reached true running []
      (run mark_unready led)
      (controller_task ∷ storing [] ∷ controller_task ∷ renewal_tasks true)
    × (leaderz (run mark_unready led) ≡ 503)
    × (readyz (run mark_unready led) ≡ 503)
    × (is_leader (run mark_unready led).metrics ≡ true)
gauge_outlives_leadership_example =
    gauge_outlives_leadership (controller_task ∷ []) (controller_task ∷ renewal_tasks true)
      led_Reached leads_now

abbrev ready_at : String → ConditionFields
ready_at now = build_condition now "Ready" "False" "Error" "refused"

abbrev synced_at : String → ConditionFields
synced_at now = build_condition now "Synced" "False" "Error" "refused"

set_all-set_all_example :
    set_all
      (set_all [] (ready_at "11:00" ∷ synced_at "11:00" ∷ []))
      (ready_at "12:00" ∷ synced_at "12:00" ∷ [])
    ≡ set_all [] (ready_at "11:00" ∷ synced_at "11:00" ∷ [])
set_all-set_all_example =
    set_all-set_all [] (ready_at "11:00" ∷ synced_at "11:00" ∷ [])
      (ready_at "12:00" ∷ synced_at "12:00" ∷ []) ((refl, tt), (tt, tt))
      (
        record { types = refl; statuses = refl; reasons = refl; messages = refl },
        (record { types = refl; statuses = refl; reasons = refl; messages = refl }, tt),
      )
