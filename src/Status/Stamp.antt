-- ===== src/Status/Stamp.antt =====
-- A status that is computed again, with nothing changed but the clock, keeps its stamp.
use streamline_operator.Base.{
  String, Option, none, some, ◌≡◌, refl, ap, ◌∙◌, true, Bool-cases, inl, inr,
}
use streamline_operator.Status.{is_yes, is_published, with_stable_timestamp}

is_yes_same : {A : Type 0} (d : Dec A) → A → is_yes d ≡ true
is_yes_same (yes _) a = refl
is_yes_same (no n) a = absurd (n a)

module _ {S : Type 0} (same : Discrete S) (get : S → Option String) (put : Option String → S → S)
    (get-put : (t : Option String) (s : S) → get (put t s) ≡ t)
    (put-put : (t u : Option String) (s : S) → put t (put u s) ≡ put t s) where
  restamp :
      (later : String) (t : Option String) (s : S)
      → put none s ≡ s
      → with_stable_timestamp same get put later (some (put t s)) s ≡ put t s
  unfolding with_stable_timestamp
  restamp later t s fresh =
      rw (is_yes_same (same (put none (put t s)) s) (put-put none t s ∙ fresh)) (rw get-put)

  pub stamped :
      (now : String) (current : Option S) (s : S)
      → (t : Option String) × (with_stable_timestamp same get put now current s ≡ put t s)
  unfolding with_stable_timestamp
  stamped now none s = (some now, refl)
  stamped now (some c) s = elim (Bool-cases (is_yes (same (put none c) s))) [
    | inl e ↦ (get c, rw e)
    | inr e ↦ (some now, rw e)
  ]

  -- Stamping the same status again, on top of the stamped one and at any later time, gives the stamped
  -- one.
  pub stamp-stamp :
      (now later : String) (current : Option S) (s : S)
      → put none s ≡ s
      → with_stable_timestamp same get put later
          (some (with_stable_timestamp same get put now current s))
          s
        ≡ with_stable_timestamp same get put now current s
  stamp-stamp now later current s fresh =
      let (t, e) = stamped now current s in rw e (restamp later t s fresh)

pub is_published_self :
    {S : Type 0} (same : Discrete S) (s : S) → is_published same (some s) s ≡ true
unfolding is_published
is_published_self same s = is_yes_same (same s s) refl

pub is_published_sound :
    {S : Type 0} (same : Discrete S) (current : Option S) (s : S)
    → is_published same current s ≡ true
    → current ≡ some s
unfolding is_published
is_published_sound same none s h = cc
is_published_sound same (some c) s h = ap some (from_yes (same c s) h)
  where
    from_yes : (d : Dec (c ≡ s)) → is_yes d ≡ true → c ≡ s
    from_yes (yes e) q = e
    from_yes (no n) q = cc
