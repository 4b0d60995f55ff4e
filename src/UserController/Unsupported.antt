-- ===== src/UserController/Unsupported.antt =====
-- What a user is told, and that it is told once.
use streamline_operator.Base.{
  String, true, false, Option, none, some, List, [], ◌∷◌, ◌≡◌, refl, ap, ◌∙◌, ok, map, filter,
  str_eq, if◌then◌else◌, Bool-cases, inl, inr,
}
use streamline_operator.Base.Finalizers.{has}
use streamline_operator.Conditions.{
  ConditionFields, set_all, set_condition, user_finalizer, build_condition, user_condition_ready,
  user_condition_credentials_ready, condition_false,
}
use streamline_operator.Conditions.Found.{found, found-set_condition}
use streamline_operator.Conditions.Stable.{set_all-set_all}
use streamline_operator.Crd.Meta.{is_deleting}
use streamline_operator.Crd.User.{
  StreamlineUser, UserStatus, UserCondition, unsupported, UserStatus-discrete,
}
use streamline_operator.Runtime.{await_change, World, pure, meter, timed, now_at, ◌>>=◌}
use streamline_operator.Runtime.Traces.{All}
use streamline_operator.Status.Stamp.{stamp-stamp, stamped, is_published_self}
use streamline_operator.UserController.{
  into_user_condition, of_user_condition, is_own_type, conditions_of, seeded_conditions,
  unsupported_conditions, unsupported_reason, unsupported_message, get_last_updated,
  put_last_updated, status_of, unsupported_status, UserCall, UserEnv, finalizers_of, publish,
  reconcile,
}

-- The object after the status patch.
abbrev pub published : StreamlineUser → UserStatus → StreamlineUser
published user status = record user { status = some status }

abbrev IsOwn : ConditionFields → Type 0
IsOwn c = is_own_type c.condition_type ≡ true

seeded-IsOwn :
    (cs : List UserCondition)
    → All IsOwn (map of_user_condition (filter (λ (c : UserCondition). is_own_type c.type) cs))
seeded-IsOwn [] = tt
seeded-IsOwn (c ∷ cs) = elim (Bool-cases (is_own_type c.type)) [
  | inl e ↦ rw e (e, seeded-IsOwn cs)
  | inr e ↦ rw e (seeded-IsOwn cs)
]

set_condition-IsOwn :
    (cs : List ConditionFields) (n : ConditionFields)
    → IsOwn n
    → All IsOwn cs
    → All IsOwn (set_condition cs n)
unfolding set_condition
set_condition-IsOwn [] n own h = (own, tt)
set_condition-IsOwn (c ∷ cs) n own (o, h) =
    elim (Bool-cases (str_eq c.condition_type n.condition_type)) [
      | inl e ↦ elim (Bool-cases (str_eq c.status n.status)) [
        | inl f ↦ rw (e, f) (o, h)
        | inr f ↦ rw (e, f) (own, h)
      ]
      | inr e ↦ rw e (o, set_condition-IsOwn cs n own h)
    ]

own-kept :
    (cs : List ConditionFields)
    → All IsOwn cs
    → map of_user_condition
        (filter (λ (c : UserCondition). is_own_type c.type) (map into_user_condition cs))
      ≡ cs
own-kept [] h = refl
own-kept (c ∷ cs) (o, h) = rw o (ap (λ t. c ∷ t) (own-kept cs h))

-- The status of the first condition of that type, as published.
abbrev pub reported : String → List UserCondition → Option String
reported kind [] = none
reported kind (c ∷ cs) =
    let rest = reported kind cs in if str_eq c.type kind then some c.status else rest

reported-into :
    (kind : String) (cs : List ConditionFields)
    → reported kind (map into_user_condition cs) ≡ found kind cs
unfolding found
reported-into kind [] = refl
reported-into kind (c ∷ cs) = rw (reported-into kind cs)

abbrev ready_now : String → ConditionFields
ready_now now =
    build_condition now user_condition_ready condition_false unsupported_reason unsupported_message

abbrev credentials_now : String → ConditionFields
credentials_now now =
    build_condition now user_condition_credentials_ready condition_false unsupported_reason
      "No credentials Secret is provisioned: the server cannot be told about credentials, so generating them would be misleading"

module _ (now later : String) (user : StreamlineUser) where
  abbrev updated : List ConditionFields
  updated = set_all (seeded_conditions user) (unsupported_conditions now)

  abbrev built : UserStatus
  built = unsupported_status now user

  updated-IsOwn : All IsOwn updated
  unfolding seeded_conditions
  updated-IsOwn =
      set_condition-IsOwn _ _ refl
        (set_condition-IsOwn _ _ refl (seeded-IsOwn (conditions_of user.status)))

  built-put : (t : Option String) × (built ≡ put_last_updated t (status_of user updated))
  unfolding unsupported_status
  built-put =
      stamped UserStatus-discrete get_last_updated put_last_updated (λ t s. refl) (λ t u s. refl)
        now user.status (status_of user updated)

  seeded-built : seeded_conditions (published user built) ≡ updated
  unfolding seeded_conditions
  seeded-built =
      ap
        (λ (s : UserStatus).
          map of_user_condition (filter (λ (c : UserCondition). is_own_type c.type) s.conditions))
        (built-put.1)
      ∙ own-kept updated updated-IsOwn

  reported_built : (kind : String) → reported kind built.conditions ≡ found kind updated
  reported_built kind =
      rw (ap (λ (s : UserStatus). s.conditions) (built-put.1)) (reported-into kind updated)

  found_updated :
      (found user_condition_ready updated ≡ some condition_false)
      × (found user_condition_credentials_ready updated ≡ some condition_false)
  found_updated =
      let first = set_condition (seeded_conditions user) (ready_now now) in
      (
        found-set_condition user_condition_ready first (credentials_now now)
            ∙ found-set_condition user_condition_ready (seeded_conditions user) (ready_now now),
        found-set_condition user_condition_credentials_ready first (credentials_now now),
      )

  again :
      set_all (seeded_conditions (published user built)) (unsupported_conditions later) ≡ updated
  again =
      ap (λ cs. set_all cs (unsupported_conditions later)) seeded-built
      ∙ set_all-set_all (seeded_conditions user) (unsupported_conditions now)
          (unsupported_conditions later) ((refl, tt), (tt, tt))
          (
            record { types = refl; statuses = refl; reasons = refl; messages = refl },
            (record { types = refl; statuses = refl; reasons = refl; messages = refl }, tt),
          )

  unsupported_status_again : unsupported_status later (published user built) ≡ built
  unfolding unsupported_status
  unsupported_status_again = rw again (
      stamp-stamp UserStatus-discrete get_last_updated put_last_updated (λ t s. refl)
        (λ t u s. refl) now later user.status (status_of user updated) refl)

  -- The status of a user claims neither readiness nor credentials, whatever was published before: it is
  -- not ready, its phase is Unsupported, it names neither a user nor a credentials Secret, and the first
  -- condition of the type Ready and the first of the type CredentialsReady are "False". And once published it comes out equal when it is built again, whatever the clock says.
  pub user_status_claims_nothing :
      ((unsupported_status now user).ready ≡ false)
      × ((unsupported_status now user).phase ≡ unsupported)
      × ((unsupported_status now user).username ≡ none)
      × ((unsupported_status now user).credentials_secret ≡ none)
      × (reported "Ready" (unsupported_status now user).conditions ≡ some "False")
      × (reported "CredentialsReady" (unsupported_status now user).conditions ≡ some "False")
      × (unsupported_status later (published user (unsupported_status now user))
          ≡ unsupported_status now user)
  user_status_claims_nothing =
      let e = built-put.1 in
      (
        ap (λ (s : UserStatus). s.ready) e,
        ap (λ (s : UserStatus). s.phase) e,
        ap (λ (s : UserStatus). s.username) e,
        ap (λ (s : UserStatus). s.credentials_secret) e,
        reported_built user_condition_ready ∙ found_updated.0,
        reported_built user_condition_credentials_ready ∙ found_updated.1,
        unsupported_status_again,
      )

-- A user that is not being deleted, and that carries no finalizer of the operator and the status that an
-- earlier pass published, is left alone: the pass, at any later time and whatever the API server would answer, makes no call, and
-- waits for a change.
pub told_user_is_left_alone :
    (env : UserEnv) (user : StreamlineUser) (now : String) (w : World UserCall)
    → is_deleting user.metadata ≡ false
    → has user_finalizer (finalizers_of user) ≡ false
    → ((reconcile env (published user (unsupported_status now user)) w).1.trace ≡ w.trace)
      × ((reconcile env (published user (unsupported_status now user)) w).0 ≡ ok await_change)
unfolding reconcile ◌>>=◌ meter timed now_at pure publish
told_user_is_left_alone env user now w live free =
    rw
      (
        live,
        free,
        unsupported_status_again now (env.now w.trace) user,
        is_published_self UserStatus-discrete (unsupported_status now user),
      )
      (refl, refl)
