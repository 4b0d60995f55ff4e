-- ===== src/LeaderElection/Renewed.antt =====
-- What a renewal changes.
use streamline_operator.Base.{
  ℕ, String, true, Option, none, some, List, ◌∷◌, ◌≡◌, refl, Result, ok, err, Bool-cases, inl, inr,
}
use streamline_operator.Runtime.{KubeError}
use streamline_operator.LeaderElection.{
  Lease, LeaseSpec, LeaseCall, get_lease, replace, LeaseEnv, holder_of, is_held_by, renewed_lease,
  duration_of, renewed_at, transitions_of, acquire_time_of, after_read, renew, send,
}
use streamline_operator.LeaderElection.Acquired.{accepted, held_sound}

-- The Lease that was written is the one that was read, held by `identity`, but for the renew time.
pub record IsRenewalOf (identity : String) (now : ℕ) (read l : Lease) : Type 0 where
  pub holds : holder_of read.spec ≡ some identity
  pub holder : holder_of l.spec ≡ some identity
  pub renewed : renewed_at l.spec ≡ some now
  pub duration : duration_of l.spec ≡ duration_of read.spec
  pub transitions : transitions_of l.spec ≡ transitions_of read.spec
  pub acquired : acquire_time_of l.spec ≡ acquire_time_of read.spec
  pub version : l.resource_version ≡ read.resource_version

renewed_lease-IsRenewalOf :
    (identity : String) (now : ℕ) (version : Option String) (spec : Option LeaseSpec)
    → holder_of spec ≡ some identity
    → IsRenewalOf identity now
        (record { resource_version = version; spec = spec })
        (renewed_lease (record { resource_version = version; spec = spec }) now)
unfolding renewed_lease
renewed_lease-IsRenewalOf identity now version none h = cc
renewed_lease-IsRenewalOf identity now version (some s) h = record {
  holds = h;
  holder = h;
  renewed = refl;
  duration = refl;
  transitions = refl;
  acquired = refl;
  version = refl;
}

-- `renew` returns `Ok(true)` only after it read a Lease that this replica holds, and replaced it, by the
-- version that was read, with one that is renewed now and otherwise the same; that write was the last
-- call, and the API server accepted it.
pub renew-IsRenewalOf :
    (env : LeaseEnv) (identity : String) (before : List LeaseCall)
    → (renew env identity before).0 ≡ ok true
    → (read : Lease) × (l : Lease) × (env.get before ≡ ok read)
      × ((renew env identity before).1 ≡ replace l ∷ get_lease ∷ before)
      × (env.write (get_lease ∷ before) (replace l) ≡ ok tt)
      × IsRenewalOf identity (env.now (get_lease ∷ before)) read l
unfolding renew after_read send
renew-IsRenewalOf env identity before h = by_answer (env.get before) refl h
  where
    by_answer :
        (r : Result KubeError Lease)
        → env.get before ≡ r
        → (after_read env identity r (get_lease ∷ before)).0 ≡ ok true
        → (read : Lease) × (l : Lease) × (env.get before ≡ ok read)
          × ((after_read env identity r (get_lease ∷ before)).1 ≡ replace l ∷ get_lease ∷ before)
          × (env.write (get_lease ∷ before) (replace l) ≡ ok tt)
          × IsRenewalOf identity (env.now (get_lease ∷ before)) read l
    by_answer (err e) q h = cc
    by_answer (ok read) q h = elim (Bool-cases (is_held_by identity (holder_of read.spec))) [
      | inl mine ↦ (
        read,
        renewed_lease read (env.now (get_lease ∷ before)),
        q,
        rw mine,
        accepted _ (cc (rw mine at h)),
        renewed_lease-IsRenewalOf identity _ read.resource_version read.spec
            (held_sound identity _ mine),
      )
      | inr other ↦ absurd (cc (rw other at h))
    ]
