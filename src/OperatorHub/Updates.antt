-- ===== src/OperatorHub/Updates.antt =====
-- The two ways in which the hub reports updates.
use streamline_operator.Base.{
  ℕ, suc, String, Option, none, some, List, [], ◌∷◌, ◌++◌, ◌≡◌, refl, ap, length, str_eq,
  Bool-cases, inl, inr,
}
use streamline_operator.Base.Map.{lookup}
use streamline_operator.OperatorHub.{
  Hub, HubOperator, InstalledOperator, count_one, update_of, updates_in, count_in, check_updates,
  stats,
}

one_more :
    (name : String) (op : InstalledOperator) (found : Option HubOperator) (count : ℕ)
    (rest : List (String × String × String))
    → count ≡ length rest
    → count_one op found count ≡ length (update_of name op found ++ rest)
one_more name op none count rest h = h
one_more name op (some o) count rest h = elim (Bool-cases (str_eq o.version op.version)) [
  | inl same ↦ rw same h
  | inr other ↦ rw other (ap suc h)
]

length-updates_in :
    (operators : List (String × HubOperator)) (installed : List (String × InstalledOperator))
    → count_in operators installed ≡ length (updates_in operators installed)
length-updates_in operators [] = refl
length-updates_in operators ((name, op) ∷ rest) =
    one_more name op (lookup name operators) _ _ (length-updates_in operators rest)

-- The number of updates that `stats` reports is the number of entries that `check_updates` lists.
pub updates_available-check_updates :
    (hub : Hub) → (stats hub).updates_available ≡ length (check_updates hub)
unfolding stats check_updates
updates_available-check_updates hub = length-updates_in hub.operators hub.installed
