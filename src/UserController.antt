-- ===== src/UserController.antt =====
-- src/controllers/user.rs: users are not supported by the Streamline server, and the controller says so.
-- `now` stands for every `Utc::now().to_rfc3339()` of one pass.
pub mod Unsupported
use streamline_operator.Base.{
  ℕ, String, Bool, true, false, ◌||◌, Option, none, some, List, [], ◌∷◌, Result, ok, err, map,
  filter, unwrap_or, str_eq, if◌then◌else◌,
}
use streamline_operator.Base.Finalizers.{has, without}
use streamline_operator.Metrics.{inc_reconcile, inc_success, inc_error}
use streamline_operator.Conditions.{
  ConditionFields, build_condition, set_all, condition_false, user_condition_ready,
  user_condition_credentials_ready, user_finalizer,
}
use streamline_operator.Crd.Meta.{is_deleting}
use streamline_operator.Crd.User.{
  StreamlineUser, UserStatus, UserCondition, unsupported, UserStatus-discrete,
}
use streamline_operator.Runtime.{
  KubeError, Action, await_change, World, Exec, pure, meter, kube, timed, now_at, with_error_policy,
  ◌>>=◌, ◌>>◌,
}
use streamline_operator.Status
use streamline_operator.Controllers.{error_policy_backoff}

abbrev pub unsupported_reason : String
unsupported_reason = "UnsupportedByServer"

abbrev pub unsupported_message : String
unsupported_message =
    "User management is not supported: the Streamline server exposes no user API, so this operator does not create users, credentials, ACLs, or quotas"

-- `ConditionFields::into_user_condition`
abbrev pub into_user_condition : ConditionFields → UserCondition
into_user_condition c = record {
  type = c.condition_type;
  status = c.status;
  last_transition_time = c.last_transition_time;
  reason = c.reason;
  message = c.message;
}

abbrev pub of_user_condition : UserCondition → ConditionFields
of_user_condition c = record {
  condition_type = c.type;
  status = c.status;
  last_transition_time = c.last_transition_time;
  reason = c.reason;
  message = c.message;
}

abbrev pub is_own_type : String → Bool
is_own_type type = str_eq type user_condition_ready || str_eq type user_condition_credentials_ready

abbrev pub conditions_of : Option UserStatus → List UserCondition
conditions_of none = []
conditions_of (some status) = status.conditions

-- The conditions that `unsupported_status` starts from.
unfoldable pub seeded_conditions : StreamlineUser → List ConditionFields
seeded_conditions user =
    map of_user_condition
      (filter (λ (c : UserCondition). is_own_type c.type) (conditions_of user.status))

abbrev pub unsupported_conditions : String → List ConditionFields
unsupported_conditions now =
    build_condition now user_condition_ready condition_false unsupported_reason unsupported_message
    ∷ build_condition now user_condition_credentials_ready condition_false unsupported_reason
        "No credentials Secret is provisioned: the server cannot be told about credentials, so generating them would be misleading"
    ∷ []

abbrev pub get_last_updated : UserStatus → Option String
get_last_updated s = s.last_updated

abbrev pub put_last_updated : Option String → UserStatus → UserStatus
put_last_updated t s = record s { last_updated = t }

-- The status literal, before the stamp.
abbrev pub status_of : StreamlineUser → List ConditionFields → UserStatus
status_of user cond_fields = record {
  ready = false;
  phase = unsupported;
  username = none;
  credentials_secret = none;
  conditions = map into_user_condition cond_fields;
  observed_generation = user.metadata.generation;
  last_updated = none;
  error_message = some unsupported_message;
}

unfoldable pub unsupported_status : String → StreamlineUser → UserStatus
unsupported_status now user =
    Status.with_stable_timestamp UserStatus-discrete get_last_updated put_last_updated now
      user.status (status_of user (set_all (seeded_conditions user) (unsupported_conditions now)))

pub data UserCall : Type 0 where
  merge_finalizers : String → String → List String → UserCall
  patch_status : String → String → UserStatus → UserCall

-- The API server and the clock, each a function of the calls made before.
pub record UserEnv : Type 0 where
  pub write : List UserCall → UserCall → Result KubeError (Unit {0})
  pub now : List UserCall → String
  pub elapsed_ms : List UserCall → ℕ

abbrev pub finalizers_of : StreamlineUser → List String
finalizers_of user = unwrap_or [] user.metadata.finalizers

module _ (env : UserEnv) where
  unfoldable pub remove_finalizer_if_present : StreamlineUser → String → Exec UserCall (Unit {0})
  remove_finalizer_if_present user namespace =
      if has user_finalizer (finalizers_of user)
      then kube
          (merge_finalizers namespace user.metadata.name_any
            (without user_finalizer (finalizers_of user)))
          (λ before. env.write before (
            merge_finalizers namespace user.metadata.name_any
              (without user_finalizer (finalizers_of user))))
      else pure tt

  unfoldable pub publish : StreamlineUser → String → UserStatus → Exec UserCall (Unit {0})
  publish user namespace status =
      if Status.is_published UserStatus-discrete user.status status
      then pure tt
      else kube (patch_status namespace user.metadata.name_any status)
          (λ before. env.write before (patch_status namespace user.metadata.name_any status))

  unfoldable pub update_status_unsupported : StreamlineUser → String → Exec UserCall (Unit {0})
  unfolding publish
  update_status_unsupported user namespace = do
    now ← now_at env.now
    publish user namespace (unsupported_status now user)

  unfoldable pub reconcile_present : StreamlineUser → String → Exec UserCall Action
  unfolding remove_finalizer_if_present update_status_unsupported
  reconcile_present user namespace = do
    update_status_unsupported user namespace
    meter inc_success
    pure await_change

  unfoldable pub reconcile : StreamlineUser → Exec UserCall Action
  unfolding reconcile_present remove_finalizer_if_present
  reconcile user =
      let namespace = unwrap_or "default" user.metadata.namespace in
      do
        meter (inc_reconcile "user")
        timed env.elapsed_ms (do
          remove_finalizer_if_present user namespace
          if is_deleting user.metadata then pure await_change else reconcile_present user namespace)

  -- One pass of the controller that `run` starts.
  unfoldable pub run_once : StreamlineUser → World UserCall → Action × World UserCall
  unfolding reconcile
  run_once user = with_error_policy (inc_error "user") error_policy_backoff (reconcile user)
