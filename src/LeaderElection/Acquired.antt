-- ===== src/LeaderElection/Acquired.antt =====
-- What it takes to win the lease, and what winning leaves on it.
use streamline_operator.Base.{
  ℕ, zero, suc, ◌<◌, String, Bool, true, false, Option, none, some, List, ◌∷◌, ◌≡◌, refl, ap, subst,
  ◌∙◌, ◌↔◌, Result, ok, err, arith, str_eq_sound, Bool-cases, inl, inr, ◌==◌,
}
use streamline_operator.Base.Int.{pos}
use streamline_operator.Runtime.{KubeError}
use streamline_operator.LeaderElection.{
  Lease, LeaseCall, get_lease, create, replace, sleep, LeaseEnv, Outcome, holder_of, is_held_by,
  is_expired, written, new_lease, updated_lease, send, create_lease, update_lease, when_missing,
  after_get, try_acquire, is_won, acquire, retry_interval, next_i32, transitions_of,
  acquire_time_of, renewed_at, duration_of, lease_duration_secs,
}

-- The Lease was written by `identity` at `now`: it says so, and runs from then.
pub record IsClaimed (identity : String) (now : ℕ) (l : Lease) : Type 0 where
  pub holder : holder_of l.spec ≡ some identity
  pub renewed : renewed_at l.spec ≡ some now
  pub duration : duration_of l.spec ≡ lease_duration_secs

-- The three ways to win, by what was read: no Lease, a Lease held already, an expired one.
pub data Won (env : LeaseEnv) (identity : String) (before : List LeaseCall)
    : LeaseCall → Type 0 where
  missing :
      (e : KubeError) (l : Lease)
      → env.get before ≡ err e
      → e.api_code ≡ some 404
      → IsClaimed identity (env.now before) l
      → transitions_of l.spec ≡ pos 0
      → Won env identity before (create l)
  held :
      (read l : Lease)
      → env.get before ≡ ok read
      → holder_of read.spec ≡ some identity
      → IsClaimed identity (env.now before) l
      → l.resource_version ≡ read.resource_version
      → transitions_of l.spec ≡ transitions_of read.spec
      → acquire_time_of l.spec ≡ acquire_time_of read.spec
      → Won env identity before (replace l)
  expired :
      (read l : Lease)
      → env.get before ≡ ok read
      → is_expired (env.now (get_lease ∷ before)) read.spec ≡ true
      → IsClaimed identity (env.now before) l
      → l.resource_version ≡ read.resource_version
      → transitions_of l.spec ≡ next_i32 (transitions_of read.spec)
      → acquire_time_of l.spec ≡ some (env.now before)
      → Won env identity before (replace l)

pub accepted : (r : Result KubeError (Unit {0})) → written r ≡ ok true → r ≡ ok tt
accepted (ok _) h = refl
accepted (err e) h = ground arith

pub held_sound :
    (identity : String) (h : Option String) → is_held_by identity h ≡ true → h ≡ some identity
held_sound identity none h = cc
held_sound identity (some x) h = ap some (str_eq_sound x identity h)

module _ (env : LeaseEnv) (identity : String) (before : List LeaseCall) where
  -- The write that won, and that the API server accepted it.
  abbrev pub Wins : Outcome → Type 0
  Wins o =
      (c : LeaseCall) × (o.1 ≡ c ∷ get_lease ∷ before)
      × (env.write (get_lease ∷ before) c ≡ ok tt)
      × Won env identity before c

  abbrev asked : List LeaseCall
  asked = get_lease ∷ before

  missing-Wins :
      (e : KubeError) (code : Option ℕ)
      → env.get before ≡ err e
      → e.api_code ≡ code
      → (when_missing env identity (env.now before) e code asked).0 ≡ ok true
      → Wins (when_missing env identity (env.now before) e code asked)
  unfolding when_missing create_lease send new_lease
  missing-Wins e none q c h = cc
  missing-Wins e (some code) q c h = elim (Bool-cases (code == 404)) [
    | inl b ↦ rw b (
      _,
      refl,
      accepted _ (cc (rw b at h)),
      missing e _ q (c ∙ ap some (ground (arith, b)))
          (record { holder = refl; renewed = refl; duration = refl }) refl,
    )
    | inr b ↦ absurd (cc (rw b at h))
  ]

  got-Wins :
      (read : Lease)
      → env.get before ≡ ok read
      → (after_get env identity (env.now before) (ok read) asked).0 ≡ ok true
      → Wins (after_get env identity (env.now before) (ok read) asked)
  unfolding after_get update_lease send updated_lease
  got-Wins read q h = elim (Bool-cases (is_held_by identity (holder_of read.spec))) [
    | inl mine ↦ rw mine (
      _,
      refl,
      accepted _ (cc (rw mine at h)),
      held read _ q (held_sound identity _ mine)
          (record { holder = refl; renewed = refl; duration = refl }) refl refl refl,
    )
    | inr other ↦ elim (Bool-cases (is_expired (env.now asked) read.spec)) [
      | inl late ↦
          rw (other, late)
            (
              _,
              refl,
              accepted _ (cc (rw (other, late) at h)),
              expired read _ q late (record { holder = refl; renewed = refl; duration = refl }) refl
                  refl refl,
            )
      | inr early ↦ absurd (cc (rw (other, early) at h))
    ]
  ]

  -- `try_acquire` returns `Ok(true)` only after a write that the API server accepted and that was its
  -- last call: it created a Lease where there was none, or replaced, by the version that was read, a
  -- Lease that this replica holds (transitions and acquire time kept) or that is expired (transitions
  -- counted, acquired now). What was written names this replica, is renewed now and lasts 15 seconds.
  pub try_acquire-Wins :
      (try_acquire env identity before).0 ≡ ok true → Wins (try_acquire env identity before)
  unfolding try_acquire after_get
  try_acquire-Wins h = by_answer (env.get before) refl h
    where
      by_answer :
          (r : Result KubeError Lease)
          → env.get before ≡ r
          → (after_get env identity (env.now before) r asked).0 ≡ ok true
          → Wins (after_get env identity (env.now before) r asked)
      by_answer (err e) q h = missing-Wins e e.api_code q refl h
      by_answer (ok read) q h = got-Wins read q h

-- The lease is not given to this replica: it is another's, and runs.
module _ (env : LeaseEnv) (identity : String) (before : List LeaseCall) (read : Lease)
    (answer : env.get before ≡ ok read) where
  -- A Lease that another replica holds, or nobody, and that has not expired is left alone: the attempt
  -- returns `Ok(false)` and writes nothing.
  pub try_acquire_waits :
      is_held_by identity (holder_of read.spec) ≡ false
      → is_expired (env.now (get_lease ∷ before)) read.spec ≡ false
      → try_acquire env identity before ≡ (ok false, get_lease ∷ before)
  unfolding try_acquire after_get
  try_acquire_waits other early = rw (answer, other, early)

-- The attempts of `acquire`: which one wins, from which calls, and with which calls at its end.
pub data WinsAfter (env : LeaseEnv) (identity : String)
    : ℕ → List LeaseCall → List LeaseCall → Type 0 where
  now :
      {before : List LeaseCall}
      → (try_acquire env identity before).0 ≡ ok true
      → WinsAfter env identity 0 before (try_acquire env identity before).1
  later :
      {n : ℕ} {before after : List LeaseCall}
      → is_won (try_acquire env identity before).0 ≡ false
      → WinsAfter env identity n (sleep retry_interval ∷ (try_acquire env identity before).1) after
      → WinsAfter env identity (suc n) before after

module _ (env : LeaseEnv) (identity : String) where
  won_is : (r : Result KubeError Bool) → is_won r ≡ true → r ≡ ok true
  won_is (ok b) h = ap ok h
  won_is (err e) h = cc

  acquire-finds :
      (fuel : ℕ) (before after : List LeaseCall)
      → acquire env identity fuel before ≡ some after
      → (n : ℕ) × (n < fuel) × WinsAfter env identity n before after
  unfolding acquire
  acquire-finds zero before after h = cc
  acquire-finds (suc fuel) before after h =
      elim (Bool-cases (is_won (try_acquire env identity before).0)) [
        | inl won ↦ (
          0,
          omega arith,
          subst (WinsAfter env identity 0 before) (cc (rw won at h)) (now (won_is _ won)),
        )
        | inr lost ↦
            let (n, small, w) = acquire-finds fuel _ after (rw lost at h) in
            (suc n, omega arith, later lost w)
      ]

  finds-acquire :
      (fuel n : ℕ) (before after : List LeaseCall)
      → n < fuel
      → WinsAfter env identity n before after
      → acquire env identity fuel before ≡ some after
  unfolding acquire
  finds-acquire zero n before after small w = absurd (omega arith)
  finds-acquire (suc fuel) n before after small (now won) = rw (ap is_won won)
  finds-acquire (suc fuel) n before after small (later lost w) =
      rw lost (finds-acquire fuel _ _ after (omega arith) w)

  -- With `fuel` attempts, `acquire` returns exactly if one of them wins, the ones before it having
  -- been lost or failed, each followed by the sleep; the calls made are then those of the attempts.
  pub acquire_iff :
      (fuel : ℕ) (before after : List LeaseCall)
      → (acquire env identity fuel before ≡ some after)
        ↔ ((n : ℕ) × (n < fuel) × WinsAfter env identity n before after)
  acquire_iff fuel before after =
      (acquire-finds fuel before after, λ (n, small, w). finds-acquire fuel n before after small w)
