-- ===== src/Runtime/Keeps.antt =====
-- Rules for an invariant of the trace, one for each way to build an action.
use streamline_operator.Base.{
  ℕ, Bool, true, false, List, ◌∷◌, ◌≡◌, refl, Result, ok, err, if◌then◌else◌,
}
use streamline_operator.Error.{OperatorError}
use streamline_operator.Metrics.{OperatorMetrics}
use streamline_operator.Runtime.{
  KubeError, World, Exec, pure, fail, call, meter, kube, now_at, timed, continue, ◌>>=◌,
}

-- `m` keeps `Q` of the trace, whether it returns or fails.
pub record Keeps {C A : Type 0} (Q : List C → Type 0) (m : Exec C A) : Type 0 where
  pub at : (w : World C) → Q w.trace → Q (m w).1.trace

module _ {C A : Type 0} {Q : List C → Type 0} where
  pub Keeps-pure : (a : A) → Keeps Q (pure a)
  unfolding pure
  Keeps-pure a = record { at = λ w h. h }

  pub Keeps-fail : (e : OperatorError) → Keeps Q (fail {A = A} e)
  unfolding fail
  Keeps-fail e = record { at = λ w h. h }

  pub Keeps-call :
      (c : C) (answer : List C → A) → ((cs : List C) → Q cs → Q (c ∷ cs)) → Keeps Q (call c answer)
  unfolding call
  Keeps-call c answer q = record { at = λ w h. q w.trace h }

  pub Keeps-kube :
      (c : C) (answer : List C → Result KubeError A)
      → ((cs : List C) → Q cs → Q (c ∷ cs))
      → Keeps Q (kube c answer)
  unfolding kube
  Keeps-kube c answer q = record { at = λ w h. q w.trace h }

  pub Keeps-timed : (ms : List C → ℕ) (m : Exec C A) → Keeps Q m → Keeps Q (timed ms m)
  unfolding timed
  Keeps-timed ms m k = record { at = λ w h. k.at w h }

  pub Keeps-now_at : (clock : List C → A) → Keeps Q (now_at clock)
  unfolding now_at
  Keeps-now_at clock = record { at = λ w h. h }

  pub Keeps-if :
      (b : Bool) (m n : Exec C A)
      → (b ≡ true → Keeps Q m)
      → (b ≡ false → Keeps Q n)
      → Keeps Q (if b then m else n)
  Keeps-if true m n km kn = km refl
  Keeps-if false m n km kn = kn refl

pub Keeps-meter :
    {C : Type 0} {Q : List C → Type 0} (f : OperatorMetrics → OperatorMetrics) → Keeps Q (meter f)
unfolding meter
Keeps-meter f = record { at = λ w h. h }

module _ {C A B : Type 0} (Q : List C → Type 0) where
  pub continue-keeps :
      (r : Result OperatorError A) (f : A → Exec C B) (w : World C)
      → ((a : A) → r ≡ ok a → Q w.trace → Q (f a w).1.trace)
      → Q w.trace
      → Q (continue r f w).1.trace
  continue-keeps (ok a) f w kf h = kf a refl h
  continue-keeps (err e) f w kf h = h

  -- The rest of the block may use what its first action returned, and in which state.
  pub Keeps-bind_at :
      (m : Exec C A) (f : A → Exec C B) (w : World C)
      → Keeps Q m
      → ((a : A) → (m w).0 ≡ ok a → Q (m w).1.trace → Q (f a (m w).1).1.trace)
      → Q w.trace
      → Q ((m >>= f) w).1.trace
  unfolding ◌>>=◌
  Keeps-bind_at m f w km kf h = continue-keeps (m w).0 f (m w).1 kf (km.at w h)

  pub Keeps-bind :
      (m : Exec C A) (f : A → Exec C B) → Keeps Q m → ((a : A) → Keeps Q (f a)) → Keeps Q (m >>= f)
  Keeps-bind m f km kf = record {
    at = λ w h. Keeps-bind_at m f w km (λ a _ q. (kf a).at (m w).1 q) h;
  }

pub ruleset keeps_rules = (
  Keeps-pure, Keeps-fail, Keeps-call, Keeps-kube, Keeps-now_at, Keeps-timed, Keeps-if, Keeps-meter,
  Keeps-bind,
)
