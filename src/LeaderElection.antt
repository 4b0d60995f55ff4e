-- ===== src/LeaderElection.antt =====
-- src/leader_election.rs: the election over a Lease. A time is a number of microseconds since the
-- epoch. The API server and the clock are outside the repository: what they answer is a parameter, a
-- function of the calls made before.
pub mod Acquired
pub mod Handover
pub mod Renewed
pub mod Store
use streamline_operator.Base.{
  ℕ, zero, suc, ◌+◌, ◌-◌, ◌/◌, String, Bool, true, false, Option, none, some, List, [], ◌∷◌, Result,
  ok, err, is_empty, unwrap_or, str_eq, ltb, leb, ◌==◌, if◌then◌else◌,
}
use streamline_operator.Base.Int.{ℤ, pos, negsuc, ltb_ℤ, as_i32}
use streamline_operator.Base.Text.{trim, is_empty_text}
use streamline_operator.Runtime.{KubeError}

abbrev pub lease_duration_secs : ℤ
lease_duration_secs = pos 15

abbrev pub retry_interval : ℕ
retry_interval = 5

-- `file` is what reading the service account's namespace file gives.
unfoldable pub detect_namespace : String → Option String → String
detect_namespace explicit file = if is_empty_text explicit then from_file file else explicit
  where
    from_file : Option String → String
    from_file none = "default"
    from_file (some s) = trim s

pub record LeaseSpec : Type 0 where
  pub holder_identity : Option String
  pub lease_duration_seconds : Option ℤ
  pub acquire_time : Option ℕ
  pub renew_time : Option ℕ
  pub lease_transitions : Option ℤ

-- A Lease with the version by which the API server recognises a stale write.
pub record Lease : Type 0 where
  pub resource_version : Option String
  pub spec : Option LeaseSpec

pub data LeaseCall : Type 0 where
  get_lease : LeaseCall
  create : Lease → LeaseCall
  replace : Lease → LeaseCall
  sleep : ℕ → LeaseCall

pub record LeaseEnv : Type 0 where
  pub get : List LeaseCall → Result KubeError Lease
  pub write : List LeaseCall → LeaseCall → Result KubeError (Unit {0})
  pub now : List LeaseCall → ℕ

-- What an operation returns, and the calls made up to then.
abbrev pub Outcome : Type 0
Outcome = Result KubeError Bool × List LeaseCall

abbrev pub holder_of : Option LeaseSpec → Option String
holder_of none = none
holder_of (some s) = s.holder_identity

-- `holder == Some(self.identity.as_str())`
abbrev pub is_held_by : String → Option String → Bool
is_held_by identity none = false
is_held_by identity (some holder) = str_eq holder identity

-- `signed_duration_since(t).num_seconds()`, which drops the fraction.
unfoldable pub seconds_since : ℕ → ℕ → ℤ
seconds_since now t = if leb t now then pos ((now - t) / 1000000) else minus ((t - now) / 1000000)
  where
    minus : ℕ → ℤ
    minus zero = pos 0
    minus (suc n) = negsuc n

abbrev pub duration_of : Option LeaseSpec → ℤ
duration_of none = lease_duration_secs
duration_of (some s) = unwrap_or lease_duration_secs s.lease_duration_seconds

abbrev pub renewed_at : Option LeaseSpec → Option ℕ
renewed_at none = none
renewed_at (some s) = s.renew_time

abbrev pub is_past : ℕ → ℤ → Option ℕ → Bool
is_past now duration none = true
is_past now duration (some t) = ltb_ℤ duration (seconds_since now t)

unfoldable pub is_expired : ℕ → Option LeaseSpec → Bool
is_expired now spec = is_past now (duration_of spec) (renewed_at spec)

-- `transitions + 1` on i32, as a release build computes it.
unfoldable pub next_i32 : ℤ → ℤ
next_i32 (pos n) = as_i32 (suc n)
next_i32 (negsuc zero) = pos 0
next_i32 (negsuc (suc n)) = negsuc n

-- The last match of every write: a conflict is a lost race.
abbrev pub written : Result KubeError (Unit {0}) → Result KubeError Bool
written (ok _) = ok true
written (err e) = lost_or_failed e e.api_code
  where
    lost_or_failed : KubeError → Option ℕ → Result KubeError Bool
    lost_or_failed e none = err e
    lost_or_failed e (some code) = if code == 409 then ok false else err e

abbrev pub acquire_time_of : Option LeaseSpec → Option ℕ
acquire_time_of none = none
acquire_time_of (some s) = s.acquire_time

abbrev pub transitions_of : Option LeaseSpec → ℤ
transitions_of none = pos 0
transitions_of (some s) = unwrap_or (pos 0) s.lease_transitions

-- The Lease that `create_lease` sends.
unfoldable pub new_lease : String → ℕ → Lease
new_lease identity now = record {
  resource_version = none;
  spec = some (record {
    holder_identity = some identity;
    lease_duration_seconds = some lease_duration_secs;
    acquire_time = some now;
    renew_time = some now;
    lease_transitions = some (pos 0);
  });
}

-- The Lease that `update_lease` sends.
unfoldable pub updated_lease : String → Lease → ℕ → Bool → Lease
updated_lease identity existing now takeover = record existing {
  spec = some (record {
    holder_identity = some identity;
    lease_duration_seconds = some lease_duration_secs;
    acquire_time = if takeover then some now else acquire_time_of existing.spec;
    renew_time = some now;
    lease_transitions = some (
        if takeover then next_i32 (transitions_of existing.spec) else transitions_of existing.spec);
  });
}

abbrev pub map_spec : (LeaseSpec → LeaseSpec) → Option LeaseSpec → Option LeaseSpec
map_spec f none = none
map_spec f (some s) = some (f s)

-- The Lease that `renew` sends.
unfoldable pub renewed_lease : Lease → ℕ → Lease
renewed_lease lease now = record lease {
  spec = map_spec (λ s. record s { renew_time = some now }) lease.spec;
}

-- The Lease that `release` sends.
unfoldable pub released_lease : Lease → Lease
released_lease lease = record lease {
  spec = map_spec (λ s. record s { holder_identity = none }) lease.spec;
}

abbrev pub is_won : Result KubeError Bool → Bool
is_won (ok b) = b
is_won (err e) = false

module _ (env : LeaseEnv) (identity : String) where
  unfoldable pub send : LeaseCall → List LeaseCall → Outcome
  send c before = (written (env.write before c), c ∷ before)

  unfoldable pub create_lease : ℕ → List LeaseCall → Outcome
  unfolding send
  create_lease now = send (create (new_lease identity now))

  unfoldable pub update_lease : Lease → ℕ → Bool → List LeaseCall → Outcome
  unfolding send
  update_lease existing now takeover = send (replace (updated_lease identity existing now takeover))

  -- `get` failed: a missing Lease is created.
  unfoldable pub when_missing : ℕ → KubeError → Option ℕ → List LeaseCall → Outcome
  unfolding create_lease
  when_missing now e none before = (err e, before)
  when_missing now e (some code) before =
      let attempt = create_lease now before in if code == 404 then attempt else (err e, before)

  unfoldable pub after_get : ℕ → Result KubeError Lease → List LeaseCall → Outcome
  unfolding when_missing update_lease
  after_get now (err e) before = when_missing now e e.api_code before
  after_get now (ok existing) before =
      if is_held_by identity (holder_of existing.spec)
      then update_lease existing now false before
      else if is_expired (env.now before) existing.spec
      then update_lease existing now true before
      else (ok false, before)

  unfoldable pub try_acquire : List LeaseCall → Outcome
  unfolding after_get
  try_acquire before = after_get (env.now before) (env.get before) (get_lease ∷ before)

  unfoldable pub after_read : Result KubeError Lease → List LeaseCall → Outcome
  unfolding send
  after_read (err e) before = (err e, before)
  after_read (ok lease) before =
      if is_held_by identity (holder_of lease.spec)
      then send (replace (renewed_lease lease (env.now before))) before
      else (ok false, before)

  unfoldable pub renew : List LeaseCall → Outcome
  unfolding after_read
  renew before = after_read (env.get before) (get_lease ∷ before)

  -- `release` logs its failures: only the calls are left.
  unfoldable pub release_read : Result KubeError Lease → List LeaseCall → List LeaseCall
  release_read (err e) before = before
  release_read (ok lease) before =
      if is_held_by identity (holder_of lease.spec)
      then replace (released_lease lease) ∷ before
      else before

  unfoldable pub release : List LeaseCall → List LeaseCall
  unfolding release_read
  release before = release_read (env.get before) (get_lease ∷ before)

  -- `acquire`, for as many attempts as `fuel`: `none` while it still waits.
  unfoldable pub acquire : ℕ → List LeaseCall → Option (List LeaseCall)
  unfolding try_acquire
  acquire zero before = none
  acquire (suc fuel) before =
      let (r, after) = try_acquire before in
      let rest = acquire fuel (sleep retry_interval ∷ after) in
      if is_won r then some after else rest
