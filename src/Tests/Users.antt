-- ===== src/Tests/Users.antt =====
-- The user controller's theorems, each at a concrete input.
use streamline_operator.Base.{some, false, none, [], ◌≡◌, refl, ok}
use streamline_operator.Runtime.{await_change}
use streamline_operator.Crd.User.Spec.{plain, simple}
use streamline_operator.Crd.User.{StreamlineUser, unsupported}
use streamline_operator.UserController.{UserEnv, reconcile, unsupported_status}
use streamline_operator.UserController.Unsupported.{
  reported, published, told_user_is_left_alone, user_status_claims_nothing,
}
use streamline_operator.Tests.{live_meta, idle, live}

abbrev app_user : StreamlineUser
app_user = record {
  metadata = live_meta;
  spec = record {
    cluster_ref = "main";
    authentication = record { type = plain; credentials = none };
    authorization = record { type = simple; acls = []; roles = [] };
    quotas = none;
  };
  status = none;
}

abbrev user_env : UserEnv
user_env = record { write = λ before c. ok tt; now = λ before. "12:00"; elapsed_ms = λ before. 7 }

told_user_is_left_alone_example :
    ((reconcile user_env (published app_user (unsupported_status "11:00" app_user)) idle).1.trace
      ≡ [])
    × ((reconcile user_env (published app_user (unsupported_status "11:00" app_user)) idle).0
        ≡ ok await_change)
told_user_is_left_alone_example = told_user_is_left_alone user_env app_user "11:00" idle live refl

user_status_claims_nothing_example :
    ((unsupported_status "11:00" app_user).ready ≡ false)
    × ((unsupported_status "11:00" app_user).phase ≡ unsupported)
    × ((unsupported_status "11:00" app_user).username ≡ none)
    × ((unsupported_status "11:00" app_user).credentials_secret ≡ none)
    × (reported "Ready" (unsupported_status "11:00" app_user).conditions ≡ some "False")
    × (reported "CredentialsReady" (unsupported_status "11:00" app_user).conditions ≡ some "False")
    × (unsupported_status "12:00" (published app_user (unsupported_status "11:00" app_user))
        ≡ unsupported_status "11:00" app_user)
user_status_claims_nothing_example = user_status_claims_nothing "11:00" "12:00" app_user
