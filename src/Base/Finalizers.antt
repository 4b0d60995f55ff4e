-- ===== src/Base/Finalizers.antt =====
-- Taking one name off a list of finalizers, as every controller does on deletion.
use streamline_operator.Base.{
  String, Bool, false, not, List, [], ◌∷◌, ◌≡◌, ◌≢◌, refl, arith, any, filter, str_eq, eq_iff,
}

abbrev pub has : String → List String → Bool
has f fs = any (λ g. str_eq g f) fs

-- `.iter().filter(|f| f.as_str() != NAME).cloned().collect()`
abbrev pub without : String → List String → List String
without f fs = filter (λ g. not (str_eq g f)) fs

pub has-without_self : (f : String) (fs : List String) → has f (without f fs) ≡ false
has-without_self f [] = refl
has-without_self f (g ∷ gs) = ground (arith, has-without_self f gs)

pub has-without_ne : (f g : String) (fs : List String) → g ≢ f → has g (without f fs) ≡ has g fs
has-without_ne f g [] h = refl
has-without_ne f g (k ∷ ks) h = ground (arith, has-without_ne f g ks h, eq_iff k f, eq_iff k g)
