-- ===== src/Conditions/Found.antt =====
-- What a list of conditions of src/conditions.rs says of one type.
use streamline_operator.Base.{
  String, Option, none, some, List, [], ◌∷◌, ◌≡◌, refl, arith, str_eq, eq_iff, if◌then◌else◌,
}
use streamline_operator.Conditions.{ConditionFields, set_condition}

-- The status of the first condition of that type.
unfoldable pub found : String → List ConditionFields → Option String
found kind [] = none
found kind (c ∷ cs) =
    let rest = found kind cs in if str_eq c.condition_type kind then some c.status else rest

pub found-set_condition :
    (kind : String) (cs : List ConditionFields) (new : ConditionFields)
    → found kind (set_condition cs new)
      ≡ (if str_eq new.condition_type kind then some new.status else found kind cs)
unfolding found set_condition
found-set_condition kind [] new = refl
found-set_condition kind (c ∷ cs) new = ground (
  arith,
  found-set_condition kind cs new,
  eq_iff c.condition_type new.condition_type,
  eq_iff c.condition_type kind,
  eq_iff new.condition_type kind,
  eq_iff c.status new.status,
)
