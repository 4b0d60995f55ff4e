-- ===== src/LeaderElection/Store.antt =====
-- The Lease of src/leader_election.rs under any number of replicas, whatever the order in which their
-- reads and writes reach the API server.
pub mod Steps
pub mod Exclusive
use streamline_operator.Base.{
  ℕ, ◌+◌, ◌≤◌, String, true, Option, none, some, List, [], ◌∷◌, ◌≡◌, ◌≢◌, refl, sym, ap, ◌∙◌, ◌⊎◌,
  inl, inr, Has, unwrap_or, Result, ok, err, arith, subst, Bool-cases, false,
}
use streamline_operator.Runtime.Traces.{All}
use streamline_operator.LeaderElection.{
  Lease, LeaseSpec, LeaseCall, get_lease, create, replace, LeaseEnv, holder_of, renewed_at,
  duration_of, lease_duration_secs, is_expired, seconds_since, try_acquire, renew, release,
  release_read, is_held_by, released_lease, map_spec,
}
use streamline_operator.LeaderElection.Acquired.{
  IsClaimed, Won, missing, held, expired, try_acquire-Wins,
}
use streamline_operator.LeaderElection.Handover.{released-kept}
use streamline_operator.LeaderElection.Renewed.{renew-IsRenewalOf}

-- A Lease as the API server stored it, under a version of its own, and when.
pub record Written : Type 0 where
  pub lease : Lease
  pub accepted : ℕ

abbrev pub stored : String → Lease → ℕ → Written
stored version l accepted = record {
  lease = record { resource_version = some version; spec = l.spec };
  accepted = accepted;
}

abbrev pub holder : Written → Option String
holder w = holder_of w.lease.spec

-- The renew time that stands on the Lease.
abbrev pub renewal : Written → ℕ
renewal w = unwrap_or 0 (renewed_at w.lease.spec)

-- The writes that the API server has accepted, the latest first. It accepts a create where there is no
-- Lease, and a replace only by the version that is stored, so that the Lease that was read is still the
-- latest; what the other replicas do between a read and its write is any number of steps. A replica runs
-- one operation at a time, by a clock that all share.
pub data Reached : List Written → Type 0 where
  none_yet : Reached []
  created :
      (env : LeaseEnv) (identity version : String) (before : List LeaseCall) (l : Lease)
      (accepted : ℕ)
      → try_acquire env identity before ≡ (ok true, create l ∷ get_lease ∷ before)
      → Reached (stored version l accepted ∷ [])
  acquired :
      {top : Written} {h : List Written}
      → Reached (top ∷ h)
      → (env : LeaseEnv) (identity version : String) (before : List LeaseCall) (l : Lease)
        (accepted : ℕ)
      → env.get before ≡ ok top.lease
      → try_acquire env identity before ≡ (ok true, replace l ∷ get_lease ∷ before)
      → env.now (get_lease ∷ before) ≤ accepted
      → top.accepted ≤ accepted
      → (holder top ≢ some identity) ⊎ (renewal top ≤ env.now before)
      → Reached (stored version l accepted ∷ (top ∷ h))
  renewed :
      {top : Written} {h : List Written}
      → Reached (top ∷ h)
      → (env : LeaseEnv) (identity version : String) (before : List LeaseCall) (l : Lease)
        (accepted : ℕ)
      → env.get before ≡ ok top.lease
      → renew env identity before ≡ (ok true, replace l ∷ get_lease ∷ before)
      → top.accepted ≤ accepted
      → renewal top ≤ env.now (get_lease ∷ before)
      → Reached (stored version l accepted ∷ (top ∷ h))
  released :
      {top : Written} {h : List Written}
      → Reached (top ∷ h)
      → (env : LeaseEnv) (identity version : String) (before : List LeaseCall) (l : Lease)
        (accepted : ℕ)
      → env.get before ≡ ok top.lease
      → release env identity before ≡ replace l ∷ get_lease ∷ before
      → top.accepted ≤ accepted
      → Reached (stored version l accepted ∷ (top ∷ h))
