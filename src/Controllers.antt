-- ===== src/Controllers.antt =====
-- src/controllers/mod.rs: which namespaces a controller watches, and how long it waits after an error.
use streamline_operator.Base.{ℕ, String, Option, none, some, if◌then◌else◌}
use streamline_operator.Base.Text.{trim, is_empty_text}
use streamline_operator.Error.{
  OperatorError, kube_api, configuration, reconciliation, http, serialization, not_found,
  invalid_state, internal,
}
use streamline_operator.Runtime.{Action, requeue}

pub data WatchScope : Type 0 where
  all_namespaces : WatchScope
  in_namespace : String → WatchScope

unfoldable pub from_flag : String → WatchScope
from_flag namespace =
    let trimmed = trim namespace in
    if is_empty_text trimmed then all_namespaces else in_namespace trimmed

unfoldable pub namespace : WatchScope → Option String
namespace all_namespaces = none
namespace (in_namespace ns) = some ns

unfoldable pub describe : WatchScope → String
describe all_namespaces = "all namespaces"
describe (in_namespace ns) = ns

unfoldable pub delay_secs : OperatorError → ℕ
delay_secs (kube_api _) = 10
delay_secs (http _) = 10
delay_secs (not_found _) = 15
delay_secs (reconciliation _) = 30
delay_secs (invalid_state _) = 30
delay_secs (configuration _) = 60
delay_secs (serialization _) = 60
delay_secs (internal _) = 60

unfoldable pub error_policy_backoff : OperatorError → Action
unfolding delay_secs
error_policy_backoff error = requeue (delay_secs error)
