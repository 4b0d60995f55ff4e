-- ===== src/LeaderElection/Handover.antt =====
-- How the lease passes from one replica to the next.
use streamline_operator.Base.{
  ℕ, ◌+◌, ◌≤◌, ◌<◌, String, false, Option, none, some, List, ◌∷◌, ◌≡◌, ◌≢◌, refl, ◌∙◌, ok, arith,
  eq_iff,
}
use streamline_operator.LeaderElection.{
  Lease, LeaseSpec, LeaseCall, get_lease, LeaseEnv, holder_of, is_expired, released_lease,
  seconds_since, try_acquire, duration_of, renewed_at, map_spec, lease_duration_secs,
}
use streamline_operator.LeaderElection.Acquired.{try_acquire_waits, IsClaimed}

-- Within 15 seconds and a fraction of the time of the last renewal, a Lease that lasts 15 seconds has
-- not expired.
fresh :
    (now : ℕ) (spec : Option LeaseSpec) (t : ℕ)
    → duration_of spec ≡ lease_duration_secs
    → renewed_at spec ≡ some t
    → t ≤ now
    → now < t + 16000000
    → is_expired now spec ≡ false
unfolding is_expired seconds_since
fresh now spec t d r up down = rw (d, r) (ground arith)

pub released-kept :
    (l : Lease)
    → (holder_of (released_lease l).spec ≡ none)
      × (renewed_at (released_lease l).spec ≡ renewed_at l.spec)
      × (duration_of (released_lease l).spec ≡ duration_of l.spec)
unfolding released_lease
released-kept l = by_spec l.spec
  where
    by_spec :
        (s : Option LeaseSpec)
        → (holder_of (map_spec (λ s. record s { holder_identity = none }) s) ≡ none)
          × (renewed_at (map_spec (λ s. record s { holder_identity = none }) s) ≡ renewed_at s)
          × (duration_of (map_spec (λ s. record s { holder_identity = none }) s) ≡ duration_of s)
    by_spec none = (refl, refl, refl)
    by_spec (some s) = (refl, refl, refl)

-- A replica that reads the Lease which `release` writes less than 16 seconds after the holder's last
-- renewal does not take it: the attempt returns `Ok(false)` and writes nothing, since the release
-- clears the holder and leaves the renew time.
pub released_lease_still_blocks :
    (env : LeaseEnv) (standby leader : String) (before : List LeaseCall) (l : Lease) (t : ℕ)
    → IsClaimed leader t l
    → env.get before ≡ ok (released_lease l)
    → t ≤ env.now (get_lease ∷ before)
    → env.now (get_lease ∷ before) < t + 16000000
    → try_acquire env standby before ≡ (ok false, get_lease ∷ before)
released_lease_still_blocks env standby leader before l t claimed answer up down =
    let (free, kept, lasts) = released-kept l in
    try_acquire_waits env standby before (released_lease l) answer (rw free refl) (
      fresh (env.now (get_lease ∷ before)) (released_lease l).spec t (lasts ∙ claimed.duration)
        (kept ∙ claimed.renewed) up down)

-- A replica does not take the Lease that another one claimed less than 16 seconds ago: as long as the
-- leader renews in time, and the clocks agree, no one else wins.
pub claimed_lease_excludes_others :
    (env : LeaseEnv) (standby leader : String) (before : List LeaseCall) (l : Lease) (t : ℕ)
    → IsClaimed leader t l
    → leader ≢ standby
    → env.get before ≡ ok l
    → t ≤ env.now (get_lease ∷ before)
    → env.now (get_lease ∷ before) < t + 16000000
    → try_acquire env standby before ≡ (ok false, get_lease ∷ before)
claimed_lease_excludes_others env standby leader before l t claimed ne answer up down =
    try_acquire_waits env standby before l answer
      (rw claimed.holder (ground (arith, eq_iff leader standby)))
      (fresh (env.now (get_lease ∷ before)) l.spec t claimed.duration claimed.renewed up down)
