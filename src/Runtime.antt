-- ===== src/Runtime.antt =====
-- How a controller runs: an action reads and extends the trace of the calls made so far, keeps the
-- operator's metrics, and ends in a result. The Kubernetes API server, the Streamline server and the
-- clock are outside the repository: what they answer is a parameter of the controllers, a function of
-- the calls made before and of the call itself.
pub mod Traces
pub mod Keeps
use streamline_operator.Base.{ℕ, String, Option, List, [], ◌∷◌, Result, ok, err}
use streamline_operator.Error.{OperatorError, kube_api}
use streamline_operator.Metrics.{OperatorMetrics, observe_duration_ms}

-- What the operator reads from a `kube::Error`: the status code, if it is the `Api` variant, and the
-- text of its `Display`.
pub record KubeError : Type 0 where
  pub api_code : Option ℕ
  pub text : String

-- `kube::runtime::controller::Action`
pub data Action : Type 0 where
  requeue : ℕ → Action
  await_change : Action

-- The calls made so far, the latest first, and the process-wide metrics.
pub record World (C : Type 0) : Type 0 where
  pub trace : List C
  pub metrics : OperatorMetrics

abbrev pub Exec : Type 0 → Type 0 → Type 0
Exec C A = World C → Result OperatorError A × World C

module _ {C A : Type 0} where
  unfoldable pub pure : A → Exec C A
  pure a w = (ok a, w)

  unfoldable pub fail : OperatorError → Exec C A
  fail e w = (err e, w)

  -- A call: the answer may depend on the calls before it.
  unfoldable pub call : C → (List C → A) → Exec C A
  call c answer w = (ok (answer w.trace), record w { trace = c ∷ w.trace })

-- A change of the metrics.
unfoldable pub meter : {C : Type 0} → (OperatorMetrics → OperatorMetrics) → Exec C (Unit {0})
meter f w = (ok tt, record w { metrics = f w.metrics })

module _ {C A B : Type 0} where
  abbrev pub continue : Result OperatorError A → (A → Exec C B) → Exec C B
  continue (ok a) f w = f a w
  continue (err e) f w = (err e, w)

  infixl 5 ◌>>=◌ ◌>>◌
  unfoldable pub ◌>>=◌ : Exec C A → (A → Exec C B) → Exec C B
  ◌>>=◌ m f w = let (r, w') = m w in continue r f w'

  abbrev pub ◌>>◌ : Exec C A → Exec C B → Exec C B
  m >> n = m >>= λ _. n

abbrev pub kube_result : {A : Type 0} → Result KubeError A → Result OperatorError A
kube_result (ok a) = ok a
kube_result (err e) = err (kube_api e.text)

-- `call.await.map_err(|e| OperatorError::KubeApi(e.to_string()))?`
unfoldable pub kube : {C A : Type 0} → C → (List C → Result KubeError A) → Exec C A
kube c answer w = (kube_result (answer w.trace), record w { trace = c ∷ w.trace })

-- `match action().await { Ok(_) => …, Err(_) => … }`: the failure is a value.
unfoldable pub catch : {C A : Type 0} → Exec C A → Exec C (Result OperatorError A)
catch m w = let (r, w') = m w in (ok r, w')

-- `Utc::now()`, read after the calls made so far.
unfoldable pub now_at : {C A : Type 0} → (List C → A) → Exec C A
now_at clock w = (ok (clock w.trace), w)

-- `let _timer = metrics::get().start_timer();`: the timer records when it is dropped, on every exit.
unfoldable pub timed : {C A : Type 0} → (List C → ℕ) → Exec C A → Exec C A
timed elapsed_ms m w =
    let (r, w') = m w in
    (r, record w' { metrics = observe_duration_ms (elapsed_ms w'.trace) w'.metrics })

abbrev pub settle :
    {C : Type 0}
    → (OperatorMetrics → OperatorMetrics)
    → (OperatorError → Action)
    → Result OperatorError Action
    → World C
    → Action × World C
settle count policy (ok a) w = (a, w)
settle count policy (err e) w = (policy e, record w { metrics = count w.metrics })

-- One pass of a controller's work queue: the error of the reconciler is counted and answered with the
-- delay of the error policy.
unfoldable pub with_error_policy :
    {C : Type 0}
    → (OperatorMetrics → OperatorMetrics)
    → (OperatorError → Action)
    → Exec C Action
    → World C
    → Action × World C
with_error_policy count policy m w = let (r, w') = m w in settle count policy r w'
