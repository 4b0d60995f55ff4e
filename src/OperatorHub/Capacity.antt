-- ===== src/OperatorHub/Capacity.antt =====
-- What the hub promises of its installed operators, and what two installs at once can do to it.
use streamline_operator.Base.{
  suc, ◌≤◌, ◌<◌, String, false, Option, none, some, List, ◌≡◌, ◌≢◌, refl, ap, subst, Result, ok,
  err, arith, length, is_some, leb, str_eq, eq_iff, Bool-cases, inl, inr,
}
use streamline_operator.Base.Map.{lookup, insert, lookup-insert, length-insert, length-remove}
use streamline_operator.OperatorHub.{
  Hub, HubConfig, HubOperator, InstalledOperator, installed_operator, new_hub, has_room,
  install_checks, commit_install, and_then, install, uninstall, upgrade, upgrade_to, upgrade_entry,
  installed_or_not, running,
}

-- Room was found: there are fewer operators than allowed, and not this one.
room-found :
    (config : HubConfig) (m : List (String × InstalledOperator)) (name : String)
    → has_room config m name ≡ ok tt
    → (length m < config.max_installed) × (lookup name m ≡ none)
unfolding has_room
room-found config m name h = elim (Bool-cases (leb config.max_installed (length m))) [
  | inl full ↦ absurd (cc (rw full at h))
  | inr free ↦ elim (Bool-cases (is_some (lookup name m))) [
    | inl there ↦ absurd (cc (rw (free, there) at h))
    | inr absent ↦ (ground (arith, free), ground (arith, absent))
  ]
]

checked :
    (k : Result String HubOperator) (r : Result String (Unit {0})) (op : HubOperator)
    → and_then k r ≡ ok op
    → (k ≡ ok op) × (r ≡ ok tt)
checked (ok o) (ok _) op h = (h, refl)
checked (ok o) (err e) op h = cc
checked (err e) r op h = cc

-- The operations of the hub, each run without another in between.
pub data Reached (config : HubConfig) : Hub → Type 0 where
  fresh : Reached config (new_hub config)
  installs :
      (now name : String) {hub : Hub} → Reached config hub → Reached config (install now name hub).1
  uninstalls :
      (name : String) {hub : Hub} → Reached config hub → Reached config (uninstall name hub).1
  upgrades :
      (now name : String) {hub : Hub} → Reached config hub → Reached config (upgrade now name hub).1

-- The configuration stays, and the installed operators are within its bound.
pub record IsWithin (config : HubConfig) (hub : Hub) : Type 0 where
  pub configured : hub.config ≡ config
  pub bounded : length hub.installed ≤ config.max_installed

install-IsWithin :
    (config : HubConfig) (now name : String) (hub : Hub)
    → IsWithin config hub
    → IsWithin config (install now name hub).1
unfolding install install_checks commit_install
install-IsWithin config now name hub w = by_checks (install_checks hub name) refl
  where
    by_checks :
        (r : Result String HubOperator)
        → install_checks hub name ≡ r
        → IsWithin config (installed_or_not now name r hub).1
    by_checks (err e) q = w
    by_checks (ok op) q =
        let (_, room) = checked _ _ op q in
        let (small, absent) = room-found hub.config hub.installed name room in
        record {
          configured = w.configured;
          bounded =
              rw (length-insert name (installed_operator now name op) hub.installed, absent)
                (subst (λ (c : HubConfig). length hub.installed < c.max_installed) w.configured
                  small);
        }

uninstall-IsWithin :
    (config : HubConfig) (name : String) (hub : Hub)
    → IsWithin config hub
    → IsWithin config (uninstall name hub).1
unfolding uninstall
uninstall-IsWithin config name hub w = elim (Bool-cases (is_some (lookup name hub.installed))) [
  | inl there ↦ rw there (record {
    configured = w.configured;
    bounded = omega (arith, length-remove name hub.installed, w.bounded);
  })
  | inr absent ↦ rw absent w
]

upgrade-IsWithin :
    (config : HubConfig) (now name : String) (hub : Hub)
    → IsWithin config hub
    → IsWithin config (upgrade now name hub).1
unfolding upgrade upgrade_entry
upgrade-IsWithin config now name hub w = by_operator (lookup name hub.operators)
  where
    by_entry :
        (latest : String) (e : Option InstalledOperator)
        → lookup name hub.installed ≡ e
        → IsWithin config (upgrade_entry now name latest e hub).1
    by_entry latest none q = w
    by_entry latest (some op) q = elim (Bool-cases (str_eq op.version latest)) [
      | inl same ↦ rw same w
      | inr other ↦ rw other (record {
        configured = w.configured;
        bounded =
            rw
              (
                length-insert name
                    (record op { version = latest; status = running; last_reconcile_at = some now })
                    hub.installed,
                q,
              )
              w.bounded;
      })
    ]

    by_operator : (o : Option HubOperator) → IsWithin config (upgrade_to now name o hub).1
    by_operator none = w
    by_operator (some op) = by_entry op.version (lookup name hub.installed) refl

-- However the operations follow one another, each run without another in between, the hub never has
-- more operators installed than its configuration allows.
pub Reached-IsWithin : {config : HubConfig} {hub : Hub} → Reached config hub → IsWithin config hub
unfolding new_hub
Reached-IsWithin fresh = record { configured = refl; bounded = omega arith }
Reached-IsWithin (installs now name r) = install-IsWithin _ now name _ (Reached-IsWithin r)
Reached-IsWithin (uninstalls name r) = uninstall-IsWithin _ name _ (Reached-IsWithin r)
Reached-IsWithin (upgrades now name r) = upgrade-IsWithin _ now name _ (Reached-IsWithin r)

-- Two installs of different operators whose checks both passed on the same hub, with one place left,
-- end with one operator more than the configuration allows: the second does not check again.
pub racing_installs_exceed :
    (hub : Hub) (now later a b : String) (x y : HubOperator)
    → a ≢ b
    → install_checks hub a ≡ ok x
    → install_checks hub b ≡ ok y
    → suc (length hub.installed) ≡ hub.config.max_installed
    → length (commit_install later b y (commit_install now a x hub)).installed
      ≡ suc hub.config.max_installed
unfolding install_checks commit_install
racing_installs_exceed hub now later a b x y ne p q last =
    let (_, free_a) = room-found hub.config hub.installed a (checked _ _ x p).1 in
    let (_, free_b) = room-found hub.config hub.installed b (checked _ _ y q).1 in
    let m = insert a (installed_operator now a x) hub.installed in
    let apart : str_eq a b ≡ false = ground (arith, eq_iff a b) in
    rw
      (
        length-insert b (installed_operator later b y) m,
        lookup-insert a b (installed_operator now a x) hub.installed,
        apart,
        free_b,
        length-insert a (installed_operator now a x) hub.installed,
        free_a,
      )
      (ap suc last)
