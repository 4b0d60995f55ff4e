-- ===== src/LeaderElection/Store/Exclusive.antt =====
-- The Lease has one holder at a time.
use streamline_operator.Base.{
  ◌+◌, ◌≤◌, String, none, some, List, [], ◌∷◌, ◌≡◌, ◌≢◌, refl, sym, ◌∙◌, ◌⊎◌, inl, inr, Has, arith,
  subst,
}
use streamline_operator.Runtime.Traces.{All}
use streamline_operator.LeaderElection.{create}
use streamline_operator.LeaderElection.Store.{
  Written, holder, renewal, Reached, none_yet, created, acquired, renewed, released,
}
use streamline_operator.LeaderElection.Store.Steps.{
  IsDated, Follows, kept, freed, taken, claimed-IsDated, created_claim, attempt-Won,
  acquired-Follows, renewed-Follows, released-Follows,
}

-- The earlier write has run out when the later one is accepted, or it is of the same tenure.
abbrev Precedes : Written → Written → Type 0
Precedes w e =
    (renewal e + 16000000 ≤ w.accepted)
    ⊎ ((renewal e ≤ renewal w) × ((holder w ≡ holder e) ⊎ (holder w ≡ none)))

Precedes-Follows :
    (w top e : Written) → Follows w top → top.accepted ≤ w.accepted → Precedes top e → Precedes w e
Precedes-Follows w top e f later (inl out) = inl (omega (arith, later, out))
Precedes-Follows w top e (kept same a is up) later (inr (r, inl own)) =
    inr (omega (arith, r, up), inl (same ∙ own))
Precedes-Follows w top e (kept same a is up) later (inr (r, inr free)) =
    absurd (cc (same, is, free))
Precedes-Follows w top e (freed free at) later (inr (r, own)) = inr (omega (arith, r, at), inr free)
Precedes-Follows w top e (taken out) later (inr (r, own)) = inl (omega (arith, r, out))

All-map :
    {P Q : Written → Type 0} (ws : List Written) → ((w : Written) → P w → Q w) → All P ws → All Q ws
All-map [] f h = tt
All-map (w ∷ ws) f (p, h) = (f w p, All-map ws f h)

abbrev Invariant : List Written → Type 0
Invariant [] = Unit {0}
Invariant (w ∷ h) = IsDated w × All (Precedes w) (w ∷ h)

extended :
    (w top : Written) (h : List Written)
    → IsDated w
    → Follows w top
    → top.accepted ≤ w.accepted
    → Invariant (top ∷ h)
    → Invariant (w ∷ (top ∷ h))
extended w top h dated f later (_, all) = (
  dated,
  (inr (omega arith, inl refl), All-map (top ∷ h) (λ e. Precedes-Follows w top e f later) all),
)

Reached-Invariant : (h : List Written) → Reached h → Invariant h
Reached-Invariant [] r = tt
Reached-Invariant (w ∷ []) (created env identity version before l accepted h) =
    let claimed =
      created_claim env identity before (create l) l (attempt-Won env identity before (create l) h)
        refl in
    let dated = claimed-IsDated identity version (env.now before) accepted l claimed in
    (dated.0, (inr (omega arith, inl refl), tt))
Reached-Invariant (w ∷ (top ∷ h))
      (acquired r env identity version before l accepted got won decided later order) =
    let past = Reached-Invariant (top ∷ h) r in
    let (dated, f) =
      acquired-Follows env identity version before l accepted top past.0 got won decided order in
    extended w top h dated f later past
Reached-Invariant (w ∷ (top ∷ h))
      (renewed r env identity version before l accepted got won later up) =
    let past = Reached-Invariant (top ∷ h) r in
    let (dated, f) = renewed-Follows env identity version before l accepted top past.0 got won up in
    extended w top h dated f later past
Reached-Invariant (w ∷ (top ∷ h))
      (released r env identity version before l accepted got sent later) =
    let past = Reached-Invariant (top ∷ h) r in
    let (dated, f) = released-Follows env identity version before l accepted top past.0 got sent in
    extended w top h dated f later past

-- The first write was accepted after the second.
abbrev pub IsAfter : Written → Written → List Written → Type 0
IsAfter w e [] = ⊥
IsAfter w e (x ∷ h) = ((w ≡ x) × Has e h) ⊎ IsAfter w e h

All-Has : (P : Written → Type 0) (ws : List Written) (e : Written) → All P ws → Has e ws → P e
All-Has P [] e h m = elim m [ ]
All-Has P (w ∷ ws) e (p, h) (inl same) = subst P (sym same) p
All-Has P (w ∷ ws) e (p, h) (inr m) = All-Has P ws e h m

earlier : (w : Written) (h : List Written) → Reached (w ∷ h) → Reached h
earlier w [] r = none_yet
earlier w (top ∷ h)
      (acquired r env identity version before l accepted got won decided later order) =
    r
earlier w (top ∷ h) (renewed r env identity version before l accepted got won later up) = r
earlier w (top ∷ h) (released r env identity version before l accepted got sent later) = r

-- However many replicas there are and however their reads and writes interleave: when the API server accepts
-- a write of one that then holds the Lease, at least 16 seconds have passed since the time of every renewal
-- by another that it accepted before.
pub Reached-excludes_others :
    (h : List Written) (w e : Written) (a b : String)
    → Reached h
    → IsAfter w e h
    → holder w ≡ some a
    → holder e ≡ some b
    → a ≢ b
    → renewal e + 16000000 ≤ w.accepted
Reached-excludes_others [] w e a b r m wa eb ne = elim m [ ]
Reached-excludes_others (x ∷ h) w e a b r (inr m) wa eb ne =
    Reached-excludes_others h w e a b (earlier x h r) m wa eb ne
Reached-excludes_others (x ∷ h) w e a b r (inl (same, m)) wa eb ne =
    let order = All-Has (Precedes x) (x ∷ h) e (Reached-Invariant (x ∷ h) r).1 (inr m) in
    elim order [
      | inl out ↦ subst (λ y. renewal e + 16000000 ≤ y.accepted) (sym same) out
      | inr (up, inl own) ↦ absurd (ne cc (same, own, wa, eb))
      | inr (up, inr free) ↦ absurd (cc (same, wa, free))
    ]
