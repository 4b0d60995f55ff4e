-- ===== src/OperatorHub/Listings.antt =====
-- The read-only operations of src/controllers/operator_hub.rs. Their lists are in the order in which the
-- model keeps the map; a HashMap promises none. `to_lowercase` is that of Rust, with its Unicode tables.
use streamline_operator.Base.{String, Bool, ◌||◌, Option, List, [], ◌∷◌, filter}
use streamline_operator.Base.Map.{lookup}
use streamline_operator.Base.Text.{contains}
use streamline_operator.OperatorHub.{Hub, HubOperator, InstalledOperator}

-- `values().cloned().collect()`
abbrev pub values : {V : Type 0} → List (String × V) → List V
values [] = []
values ((k, v) ∷ m) = v ∷ values m

abbrev pub list_available : Hub → List HubOperator
list_available hub = values hub.operators

abbrev pub get_operator_info : String → Hub → Option HubOperator
get_operator_info name hub = lookup name hub.operators

abbrev pub get_installed : Hub → List InstalledOperator
get_installed hub = values hub.installed

module _ (to_lowercase : String → String) where
  abbrev pub matches : String → HubOperator → Bool
  matches q op = contains (to_lowercase op.name) q || contains (to_lowercase op.description) q

  unfoldable pub search : String → Hub → List HubOperator
  unfolding contains
  search query hub = filter (matches (to_lowercase query)) (values hub.operators)
