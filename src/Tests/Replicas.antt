-- ===== src/Tests/Replicas.antt =====
-- The theorem on all replicas together, at a concrete history.
use streamline_operator.Base.{
  ◌+◌, ◌≤◌, String, true, some, [], ◌∷◌, ◌≡◌, ◌≢◌, refl, arith, ok, err, eq_iff, inl,
}
use streamline_operator.LeaderElection.{
  Lease, LeaseEnv, get_lease, create, replace, new_lease, updated_lease, try_acquire, after_get,
  when_missing, create_lease, update_lease, send, is_expired, seconds_since,
}
use streamline_operator.LeaderElection.Store.{Written, stored, renewal, Reached, created, acquired}
use streamline_operator.LeaderElection.Store.Exclusive.{Reached-excludes_others}

-- No Lease yet, at 1000 seconds.
abbrev empty_store : LeaseEnv
empty_store = record {
  get = λ before. err (record { api_code = some 404; text = "not found" });
  write = λ before c. ok tt;
  now = λ before. 1000000000;
}

abbrev first : Written
first = stored "1" (new_lease "a" 1000000000) 1000000100

-- Twenty seconds later.
abbrev later_store : LeaseEnv
later_store = record {
  get = λ before. ok first.lease;
  write = λ before c. ok tt;
  now = λ before. 1020000000;
}

abbrev second : Lease
second = updated_lease "b" first.lease 1020000000 true

first_won :
    try_acquire empty_store "a" [] ≡ (ok true, create (new_lease "a" 1000000000) ∷ get_lease ∷ [])
unfolding try_acquire after_get when_missing create_lease send
first_won = refl

second_won : try_acquire later_store "b" [] ≡ (ok true, replace second ∷ get_lease ∷ [])
unfolding try_acquire after_get update_lease send is_expired seconds_since new_lease updated_lease
second_won = refl

apart : ◌≢◌ {A = String} "b" "a"
apart e = cc ((eq_iff "b" "a").1 e)

history : Reached (stored "2" second 1020000050 ∷ (first ∷ []))
unfolding new_lease
history =
    acquired (created empty_store "a" "1" [] (new_lease "a" 1000000000) 1000000100 first_won)
      later_store "b" "2" [] second 1020000050 refl second_won (omega arith) (omega arith)
      (inl (λ e. apart (cc e)))

Reached-excludes_others_example : renewal first + 16000000 ≤ 1020000050
unfolding new_lease updated_lease
Reached-excludes_others_example =
    Reached-excludes_others (stored "2" second 1020000050 ∷ (first ∷ []))
      (stored "2" second 1020000050) first "b" "a" history (inl (refl, inl refl)) refl refl apart
