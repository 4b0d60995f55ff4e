-- ===== src/LeaderElection/Store/Steps.antt =====
-- How one accepted write of the Lease follows the one before it.
use streamline_operator.Base.{
  ℕ, ◌+◌, ◌≤◌, String, true, Option, none, some, List, ◌∷◌, ◌≡◌, ◌≢◌, refl, sym, ap, ◌∙◌, ◌⊎◌, inl,
  inr, unwrap_or, ok, arith, subst, Bool-cases,
}
use streamline_operator.LeaderElection.{
  Lease, LeaseSpec, LeaseCall, get_lease, create, replace, LeaseEnv, holder_of, renewed_at,
  duration_of, lease_duration_secs, is_expired, seconds_since, try_acquire, renew, release,
  release_read, is_held_by, released_lease,
}
use streamline_operator.LeaderElection.Acquired.{
  IsClaimed, Won, missing, held, expired, try_acquire-Wins,
}
use streamline_operator.LeaderElection.Handover.{released-kept}
use streamline_operator.LeaderElection.Renewed.{renew-IsRenewalOf}
use streamline_operator.LeaderElection.Store.{Written, stored, holder, renewal}

-- A Lease with a renew time, for the default duration.
pub record IsDated (w : Written) : Type 0 where
  pub dated : renewed_at w.lease.spec ≡ some (renewal w)
  pub lasting : duration_of w.lease.spec ≡ lease_duration_secs

-- How a write follows the one before it: by the same holder, by its release, or after its time.
pub data Follows (w top : Written) : Type 0 where
  kept :
      holder w ≡ holder top
      → (a : String) → holder w ≡ some a
      → renewal top ≤ renewal w
      → Follows w top
  freed : holder w ≡ none → renewal w ≡ renewal top → Follows w top
  taken : renewal top + 16000000 ≤ w.accepted → Follows w top

-- A Lease that has expired, after the default duration, was renewed 16 seconds ago or more.
run_out :
    (now : ℕ) (spec : Option LeaseSpec) (t : ℕ)
    → duration_of spec ≡ lease_duration_secs
    → renewed_at spec ≡ some t
    → is_expired now spec ≡ true
    → t + 16000000 ≤ now
unfolding is_expired seconds_since
run_out now spec t d r h = ground (arith, rw (d, r) at h)

-- What a won replace wrote, over which Lease.
replaced_claim :
    (env : LeaseEnv) (identity : String) (before : List LeaseCall) (c : LeaseCall) (l : Lease)
    → Won env identity before c
    → c ≡ replace l
    → IsClaimed identity (env.now before) l
      × (read : Lease) × (env.get before ≡ ok read)
      × ((holder_of read.spec ≡ some identity)
          ⊎ (is_expired (env.now (get_lease ∷ before)) read.spec ≡ true))
replaced_claim env identity before c l (missing e m got code claimed none_before) h = absurd (cc h)
replaced_claim env identity before c l (held read m got mine claimed version kept_count kept_time)
      h =
    let same : m ≡ l = cc h in
    (subst (IsClaimed identity (env.now before)) same claimed, read, got, inl mine)
replaced_claim env identity before c l (expired read m got late claimed version count time) h =
    let same : m ≡ l = cc h in
    (subst (IsClaimed identity (env.now before)) same claimed, read, got, inr late)

pub claimed-IsDated :
    (identity version : String) (now accepted : ℕ) (l : Lease)
    → IsClaimed identity now l
    → IsDated (stored version l accepted) × (renewal (stored version l accepted) ≡ now)
claimed-IsDated identity version now accepted l c =
    let at = ap (unwrap_or 0) c.renewed in
    (record { dated = c.renewed ∙ ap some (sym at); lasting = c.duration }, at)

pub created_claim :
    (env : LeaseEnv) (identity : String) (before : List LeaseCall) (c : LeaseCall) (l : Lease)
    → Won env identity before c
    → c ≡ create l
    → IsClaimed identity (env.now before) l
created_claim env identity before c l (missing e m got code claimed none_before) h =
    let same : m ≡ l = cc h in subst (IsClaimed identity (env.now before)) same claimed
created_claim env identity before c l (held read m got mine claimed version kept_count kept_time)
      h =
    absurd (cc h)
created_claim env identity before c l (expired read m got late claimed version count time) h =
    absurd (cc h)

-- The last call of a won attempt.
pub attempt-Won :
    (env : LeaseEnv) (identity : String) (before : List LeaseCall) (c : LeaseCall)
    → try_acquire env identity before ≡ (ok true, c ∷ get_lease ∷ before)
    → Won env identity before c
attempt-Won env identity before c h =
    let (d, path, _, won) = try_acquire-Wins env identity before (ap (λ o. o.0) h) in
    let same : d ≡ c = cc (path, h) in subst (Won env identity before) same won

module _ (env : LeaseEnv) (identity version : String) (before : List LeaseCall) (l : Lease)
    (accepted : ℕ) (top : Written) (fits : IsDated top) (got : env.get before ≡ ok top.lease) where
  pub acquired-Follows :
      try_acquire env identity before ≡ (ok true, replace l ∷ get_lease ∷ before)
      → env.now (get_lease ∷ before) ≤ accepted
      → (holder top ≢ some identity) ⊎ (renewal top ≤ env.now before)
      → IsDated (stored version l accepted) × Follows (stored version l accepted) top
  acquired-Follows h decided ordered =
      let (claimed, read, answer, how) =
        replaced_claim env identity before (replace l) l
          (attempt-Won env identity before (replace l) h) refl in
      let (dated, at) = claimed-IsDated identity version (env.now before) accepted l claimed in
      let same : read ≡ top.lease = cc (answer, got) in
      (
        dated,
        elim how [
          | inl mine ↦ elim ordered [
            | inl other ↦ absurd (other (cc (same, mine)))
            | inr up ↦
                kept (cc (claimed.holder, same, mine)) identity claimed.holder
                  (omega (arith, up, at))
          ]
          | inr late ↦
              let gone =
                run_out (env.now (get_lease ∷ before)) top.lease.spec (renewal top) fits.lasting
                  fits.dated
                  (subst (λ x. is_expired (env.now (get_lease ∷ before)) x.spec ≡ true) same
                    late) in
              taken (omega (arith, gone, decided))
        ],
      )

  pub renewed-Follows :
      renew env identity before ≡ (ok true, replace l ∷ get_lease ∷ before)
      → renewal top ≤ env.now (get_lease ∷ before)
      → IsDated (stored version l accepted) × Follows (stored version l accepted) top
  renewed-Follows h up =
      let (read, m, answer, path, _, r) = renew-IsRenewalOf env identity before (ap (λ o. o.0) h) in
      let one : m ≡ l = cc (path, h) in
      let same : read ≡ top.lease = cc (answer, got) in
      let at : renewed_at l.spec ≡ some (env.now (get_lease ∷ before)) = cc (one, r.renewed) in
      let is : holder_of l.spec ≡ some identity = cc (one, r.holder) in
      (
        record {
          dated = at ∙ ap some (sym (ap (unwrap_or 0) at));
          lasting = cc (one, r.duration, same, fits.lasting);
        },
        kept (cc (is, same, r.holds)) identity is (omega (arith, up, ap (unwrap_or 0) at)),
      )

  pub released-Follows :
      release env identity before ≡ replace l ∷ get_lease ∷ before
      → IsDated (stored version l accepted) × Follows (stored version l accepted) top
  unfolding release release_read
  released-Follows h = elim (Bool-cases (is_held_by identity (holder top))) [
    | inl mine ↦
        let sent : replace l ≡ replace (released_lease top.lease) = cc (rw (got, mine) at h) in
        let one : released_lease top.lease ≡ l = cc sent in
        let (free, at, lasts) = released-kept top.lease in
        let renewed_so : renewed_at l.spec ≡ some (renewal top) = cc (one, at, fits.dated) in
        (
          record {
            dated = renewed_so ∙ ap some (sym (ap (unwrap_or 0) renewed_so));
            lasting = cc (one, lasts, fits.lasting);
          },
          freed (cc (one, free)) (ap (unwrap_or 0) renewed_so),
        )
    | inr other ↦ absurd (cc (rw (got, other) at h))
  ]
