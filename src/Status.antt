-- ===== src/Status.antt =====
-- What the three controllers share about the status that they publish: the stamp of `lastUpdated`
-- (`with_stable_timestamp`) and the test of `patch_status_if_changed`.
pub mod Stamp
use streamline_operator.Base.{String, Bool, true, false, Option, none, some, if◌then◌else◌}

-- `current.as_ref() == Some(&status)` and its negation go by the derived `PartialEq`, which decides
-- equality.
abbrev pub is_yes {ℓ} : {P : Type ℓ} → Dec P → Bool
is_yes (yes _) = true
is_yes (no _) = false

module _ {S : Type 0} (same : Discrete S) where
  unfoldable pub is_published : Option S → S → Bool
  is_published none status = false
  is_published (some current) status = is_yes (same current status)

  -- `get` reads the field `last_updated` of a status, and `put` writes it.
  module _ (get : S → Option String) (put : Option String → S → S) where
    unfoldable pub with_stable_timestamp : String → Option S → S → S
    with_stable_timestamp now none status = put (some now) status
    with_stable_timestamp now (some current) status =
        if is_yes (same (put none current) status)
        then put (get current) status
        else put (some now) status
