-- ===== src/Error.antt =====
-- src/error.rs: the operator's error type and its `Display`.
use streamline_operator.Base.{String, [], ◌∷◌}
use streamline_operator.Base.Text.{format}

pub data OperatorError : Type 0 where
  kube_api : String → OperatorError
  configuration : String → OperatorError
  reconciliation : String → OperatorError
  http : String → OperatorError
  serialization : String → OperatorError
  not_found : String → OperatorError
  invalid_state : String → OperatorError
  internal : String → OperatorError

-- `impl fmt::Display for OperatorError`, which `e.to_string()` calls
unfoldable pub to_string : OperatorError → String
unfolding format
to_string (kube_api msg) = format ("Kubernetes API error: " ∷ msg ∷ [])
to_string (configuration msg) = format ("Configuration error: " ∷ msg ∷ [])
to_string (reconciliation msg) = format ("Reconciliation error: " ∷ msg ∷ [])
to_string (http msg) = format ("HTTP error: " ∷ msg ∷ [])
to_string (serialization msg) = format ("Serialization error: " ∷ msg ∷ [])
to_string (not_found msg) = format ("Resource not found: " ∷ msg ∷ [])
to_string (invalid_state msg) = format ("Invalid state: " ∷ msg ∷ [])
to_string (internal msg) = format ("Internal error: " ∷ msg ∷ [])
