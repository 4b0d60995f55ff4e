-- ===== src/Runtime/Traces.antt =====
-- Rules for what an action adds to the trace, one for each way to build an action.
use streamline_operator.Base.{
  ℕ, Bool, true, false, List, [], ◌∷◌, ◌≡◌, refl, Result, ok, err, if◌then◌else◌,
}
use streamline_operator.Error.{OperatorError}
use streamline_operator.Metrics.{OperatorMetrics}
use streamline_operator.Runtime.{
  KubeError, World, Exec, pure, fail, call, meter, kube, catch, now_at, timed, continue, ◌>>=◌,
}

abbrev pub All {ℓ} : {C : Type ℓ} → (C → Type 0) → List C → Type 0
All P [] = Unit {0}
All P (c ∷ cs) = P c × All P cs

-- Every call that `m` makes satisfies `P`, whatever is answered.
pub record Emits {C A : Type 0} (P : C → Type 0) (m : Exec C A) : Type 0 where
  pub at : (w : World C) → All P w.trace → All P (m w).1.trace

module _ {C A : Type 0} {P : C → Type 0} where
  pub Emits-pure : (a : A) → Emits P (pure a)
  unfolding pure
  Emits-pure a = record { at = λ w h. h }

  pub Emits-fail : (e : OperatorError) → Emits P (fail {A = A} e)
  unfolding fail
  Emits-fail e = record { at = λ w h. h }

  pub Emits-call : (c : C) (answer : List C → A) → P c → Emits P (call c answer)
  unfolding call
  Emits-call c answer p = record { at = λ w h. (p, h) }

  pub Emits-kube : (c : C) (answer : List C → Result KubeError A) → P c → Emits P (kube c answer)
  unfolding kube
  Emits-kube c answer p = record { at = λ w h. (p, h) }

  pub Emits-now_at : (clock : List C → A) → Emits P (now_at clock)
  unfolding now_at
  Emits-now_at clock = record { at = λ w h. h }

  pub Emits-timed : (ms : List C → ℕ) (m : Exec C A) → Emits P m → Emits P (timed ms m)
  unfolding timed
  Emits-timed ms m k = record { at = λ w h. k.at w h }

  pub Emits-catch : (m : Exec C A) → Emits P m → Emits P (catch m)
  unfolding catch
  Emits-catch m k = record { at = λ w h. k.at w h }

  pub Emits-if :
      (b : Bool) (m n : Exec C A)
      → (b ≡ true → Emits P m)
      → (b ≡ false → Emits P n)
      → Emits P (if b then m else n)
  Emits-if true m n km kn = km refl
  Emits-if false m n km kn = kn refl

pub Emits-meter :
    {C : Type 0} {P : C → Type 0} (f : OperatorMetrics → OperatorMetrics) → Emits P (meter f)
unfolding meter
Emits-meter f = record { at = λ w h. h }

module _ {C A B : Type 0} {P : C → Type 0} where
  continue-All :
      (r : Result OperatorError A) (f : A → Exec C B) (w : World C)
      → ((a : A) → Emits P (f a))
      → All P w.trace
      → All P (continue r f w).1.trace
  continue-All (ok a) f w kf h = (kf a).at w h
  continue-All (err e) f w kf h = h

  pub Emits-bind :
      (m : Exec C A) (f : A → Exec C B) → Emits P m → ((a : A) → Emits P (f a)) → Emits P (m >>= f)
  unfolding ◌>>=◌
  Emits-bind m f km kf = record {
    at = λ w h. let (r, w') = m w in continue-All r f w' kf (km.at w h);
  }

pub ruleset emits_rules = (
  Emits-pure, Emits-fail, Emits-call, Emits-kube, Emits-now_at, Emits-timed, Emits-catch, Emits-if,
  Emits-meter, Emits-bind,
)
