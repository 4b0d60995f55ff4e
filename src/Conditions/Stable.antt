-- ===== src/Conditions/Stable.antt =====
-- Publishing the same conditions again, at any later time, changes nothing.
use streamline_operator.Base.{List, [], ◌∷◌, ◌≡◌, false, arith, str_eq, eq_iff, subst, refl}
use streamline_operator.Conditions.{ConditionFields, set_condition, set_all}

-- The same condition but for the time at which it was built.
pub record SameContent (c d : ConditionFields) : Type 0 where
  pub types : c.condition_type ≡ d.condition_type
  pub statuses : c.status ≡ d.status
  pub reasons : c.reason ≡ d.reason
  pub messages : c.message ≡ d.message

-- Setting `d` changes nothing.
abbrev pub Settled : List ConditionFields → ConditionFields → Type 0
Settled cs d = set_condition cs d ≡ cs

abbrev pub Apart : ConditionFields → List ConditionFields → Type 0
Apart d [] = Unit {0}
Apart d (n ∷ ns) = (str_eq n.condition_type d.condition_type ≡ false) × Apart d ns

abbrev pub HasDistinctTypes : List ConditionFields → Type 0
HasDistinctTypes [] = Unit {0}
HasDistinctTypes (n ∷ ns) = Apart n ns × HasDistinctTypes ns

abbrev pub SameContents : List ConditionFields → List ConditionFields → Type 0
SameContents [] [] = Unit {0}
SameContents (n ∷ ns) (m ∷ ms) = SameContent n m × SameContents ns ms
SameContents _ _ = ⊥

set_condition-Settled :
    (cs : List ConditionFields) (c d : ConditionFields)
    → SameContent c d
    → Settled (set_condition cs c) d
unfolding set_condition
set_condition-Settled [] c d h =
    ground (arith, eq_iff c.condition_type d.condition_type, eq_iff c.status d.status)
set_condition-Settled (x ∷ xs) c d h = ground (
  arith,
  set_condition-Settled xs c d h,
  eq_iff c.condition_type d.condition_type,
  eq_iff x.condition_type c.condition_type,
  eq_iff x.condition_type d.condition_type,
  eq_iff c.status d.status,
  eq_iff x.status c.status,
  eq_iff x.status d.status,
)

set_condition-Settled_other :
    (cs : List ConditionFields) (c d : ConditionFields)
    → str_eq c.condition_type d.condition_type ≡ false
    → Settled cs d
    → Settled (set_condition cs c) d
unfolding set_condition
set_condition-Settled_other [] c d apart h = ground arith
set_condition-Settled_other (x ∷ xs) c d apart h = ground (
  arith,
  set_condition-Settled_other xs c d apart,
  eq_iff c.condition_type d.condition_type,
  eq_iff x.condition_type c.condition_type,
  eq_iff x.condition_type d.condition_type,
)

set_all-Settled_other :
    (cs ns : List ConditionFields) (d : ConditionFields)
    → Apart d ns
    → Settled cs d
    → Settled (set_all cs ns) d
set_all-Settled_other cs [] d apart h = h
set_all-Settled_other cs (n ∷ ns) d apart h =
    set_all-Settled_other (set_condition cs n) ns d apart.1
      (set_condition-Settled_other cs n d apart.0 h)

abbrev AllSettled : List ConditionFields → List ConditionFields → Type 0
AllSettled cs [] = Unit {0}
AllSettled cs (m ∷ ms) = Settled cs m × AllSettled cs ms

-- `Apart` looks at the types only.
Apart-SameContent :
    (n m : ConditionFields) (ns : List ConditionFields) → SameContent n m → Apart n ns → Apart m ns
Apart-SameContent n m [] h a = tt
Apart-SameContent n m (k ∷ ks) h a =
    (subst (λ t. str_eq k.condition_type t ≡ false) h.types a.0, Apart-SameContent n m ks h a.1)

set_all-AllSettled :
    (cs ns ms : List ConditionFields)
    → HasDistinctTypes ns
    → SameContents ns ms
    → AllSettled (set_all cs ns) ms
set_all-AllSettled cs [] [] distinct same = tt
set_all-AllSettled cs [] (m ∷ ms) distinct same = elim same [ ]
set_all-AllSettled cs (n ∷ ns) [] distinct same = elim same [ ]
set_all-AllSettled cs (n ∷ ns) (m ∷ ms) distinct same = (
  set_all-Settled_other (set_condition cs n) ns m (Apart-SameContent n m ns same.0 distinct.0)
      (set_condition-Settled cs n m same.0),
  set_all-AllSettled (set_condition cs n) ns ms distinct.1 same.1,
)

set_all_settled : (cs ms : List ConditionFields) → AllSettled cs ms → set_all cs ms ≡ cs
set_all_settled cs [] h = refl
set_all_settled cs (m ∷ ms) h = rw h.0 (set_all_settled cs ms h.1)

-- Setting a run of conditions of distinct types twice, the second time with the same contents built
-- at any other time, gives the list that the first time gave: no transition time is refreshed.
pub set_all-set_all :
    (cs ns ms : List ConditionFields)
    → HasDistinctTypes ns
    → SameContents ns ms
    → set_all (set_all cs ns) ms ≡ set_all cs ns
set_all-set_all cs ns ms distinct same =
    set_all_settled (set_all cs ns) ms (set_all-AllSettled cs ns ms distinct same)
