-- ===== src/Crd/Generate/Installed.antt =====
-- What the manifest of the installed kinds consists of.
use Prim.Native.String.{◌++◌}
use text.Mathlib.TextLemmas.{append-nil}
use streamline_operator.Base.{
  String, true, false, some, List, [], ◌∷◌, ◌≡◌, refl, ◌↔◌, Result, ok, err, filter, Bool-cases,
  inl, inr, ap, sym, ◌∙◌, Option, none, subst,
}
use streamline_operator.Base.Text.{format, join, is_empty_text, join-append, is_empty_text-append}
use streamline_operator.Error.{OperatorError}
use streamline_operator.Crd.Generate.Kinds.{Kind, kinds}
use streamline_operator.Crd.Generate.{
  GeneratedCrd, Schemas, has_controller, is_installed, document, rendered, and_rest, documents,
  render, render_all, render_installed_manifest, installed_of,
}

abbrev yamls : List GeneratedCrd → List String
yamls [] = []
yamls (c ∷ cs) = c.yaml ∷ yamls cs

documents-join :
    (out : String) (cs : List GeneratedCrd)
    → is_empty_text out ≡ false
    → documents out cs ≡ join "---\n" (out ∷ yamls cs)
unfolding documents join format
documents-join out [] h = refl
documents-join out (c ∷ cs) h =
    let start = is_empty_text-append out (format ("---\n" ∷ c.yaml ∷ [])) h in
    rw h (
      documents-join (out ++ format ("---\n" ∷ c.yaml ∷ [])) cs start
      ∙ join-append "---\n" out (format ("---\n" ∷ c.yaml ∷ [])) (yamls cs)
      ∙ rw (append-nil c.yaml) (ap (λ t. out ++ t) (join-append "---\n" "---\n" c.yaml (yamls cs))))

document_given : (k : Kind) (body : String) → is_empty_text (document k body) ≡ false
unfolding is_empty_text format
document_given k body =
    is_empty_text-append
      "# Generated by `streamline-operator --generate-crds`. DO NOT EDIT.\n#\n# Source of truth: " _
      refl

-- The definition of the kind has a name and is printed as that text.
pub record IsPrinted (schemas : Schemas) (k : Kind) (body : String) : Type 0 where
  pub name : String
  pub named : schemas.metadata_name (schemas.definition k.kind) ≡ some name
  pub printed : schemas.to_yaml (schemas.definition k.kind) ≡ ok body

-- Every kind is printed, and the documents are those of the kinds that have a controller, in order.
pub data AreDocuments (schemas : Schemas) : List Kind → List String → Type 0 where
  no_kinds : AreDocuments schemas [] []
  installed :
      {k : Kind} {body : String} {ks : List Kind} {ts : List String}
      → IsPrinted schemas k body
      → has_controller k.reconciliation ≡ true
      → AreDocuments schemas ks ts
      → AreDocuments schemas (k ∷ ks) (document k body ∷ ts)
  left_out :
      {k : Kind} {body : String} {ks : List Kind} {ts : List String}
      → IsPrinted schemas k body
      → has_controller k.reconciliation ≡ false
      → AreDocuments schemas ks ts
      → AreDocuments schemas (k ∷ ks) ts

and_rest_ok :
    (r : Result OperatorError GeneratedCrd) (rs : Result OperatorError (List GeneratedCrd))
    (cs : List GeneratedCrd)
    → and_rest r rs ≡ ok cs
    → (c : GeneratedCrd) × (ds : List GeneratedCrd) × (r ≡ ok c) × (rs ≡ ok ds) × (cs ≡ c ∷ ds)
and_rest_ok (err e) rs cs h = cc h
and_rest_ok (ok c) (err e) cs h = cc h
and_rest_ok (ok c) (ok ds) cs h = (c, ds, refl, refl, cc h)

installed_of_ok :
    (r : Result OperatorError (List GeneratedCrd)) (text : String)
    → installed_of r ≡ ok text
    → (cs : List GeneratedCrd) × (r ≡ ok cs) × (text ≡ documents "" (filter is_installed cs))
installed_of_ok (err e) text h = cc h
installed_of_ok (ok cs) text h = (cs, refl, cc h)

kept :
    (c : GeneratedCrd) (cs : List GeneratedCrd)
    → is_installed c ≡ true
    → yamls (filter is_installed (c ∷ cs)) ≡ c.yaml ∷ yamls (filter is_installed cs)
kept c cs h = simp h

dropped :
    (c : GeneratedCrd) (cs : List GeneratedCrd)
    → is_installed c ≡ false
    → yamls (filter is_installed (c ∷ cs)) ≡ yamls (filter is_installed cs)
dropped c cs h = simp h

module _ (schemas : Schemas) where
  rendered_so :
      (k : Kind) (n : Option String) (b : Result String String) (c : GeneratedCrd)
      → schemas.metadata_name (schemas.definition k.kind) ≡ n
      → schemas.to_yaml (schemas.definition k.kind) ≡ b
      → rendered k n b ≡ ok c
      → (body : String) × IsPrinted schemas k body
        × (c.yaml ≡ document k body)
        × (c.reconciliation ≡ k.reconciliation)
  rendered_so k none b c e f h = cc h
  rendered_so k (some n) (err x) c e f h = cc h
  rendered_so k (some n) (ok body) c e f h =
      (body, record { name = n; named = e; printed = f }, cc h, cc h)

  render_all-AreDocuments :
      (ks : List Kind) (cs : List GeneratedCrd)
      → render_all schemas ks ≡ ok cs
      → AreDocuments schemas ks (yamls (filter is_installed cs))
  unfolding render_all render
  render_all-AreDocuments [] cs h = let empty : cs ≡ [] = cc h in rw empty no_kinds
  render_all-AreDocuments (k ∷ ks) cs h =
      let (c, ds, first, rest, both) =
        and_rest_ok (render schemas k) (render_all schemas ks) cs h in
      let (body, printed, yaml, origin) = rendered_so k _ _ c refl refl first in
      let later = render_all-AreDocuments ks ds rest in
      let goal = AreDocuments schemas (k ∷ ks) in
      rw both (elim (Bool-cases (has_controller k.reconciliation)) [
        | inl on ↦ subst goal (sym (kept c ds (ap has_controller origin ∙ on))) (
            subst (λ y. goal (y ∷ yamls (filter is_installed ds))) (sym yaml)
              (installed printed on later))
        | inr off ↦
            subst goal (sym (dropped c ds (ap has_controller origin ∙ off)))
              (left_out printed off later)
      ])

  rendered_if :
      (k : Kind) (n : Option String) (b : Result String String) (body : String)
      (p : IsPrinted schemas k body)
      → n ≡ some p.name
      → b ≡ ok body
      → (c : GeneratedCrd) × (rendered k n b ≡ ok c)
        × (c.yaml ≡ document k body)
        × (c.reconciliation ≡ k.reconciliation)
  rendered_if k n b body p e f = rw (e, f) (_, refl, refl, refl)

  -- The list of the rendered kinds, from the first and the rest.
  and_rest_if :
      (k : Kind) (ks : List Kind) (c : GeneratedCrd) (ds : List GeneratedCrd)
      → render schemas k ≡ ok c
      → render_all schemas ks ≡ ok ds
      → render_all schemas (k ∷ ks) ≡ ok (c ∷ ds)
  unfolding render_all
  and_rest_if k ks c ds first rest = rw (first, rest) refl

  AreDocuments-render_all :
      (ks : List Kind) (ts : List String)
      → AreDocuments schemas ks ts
      → (cs : List GeneratedCrd) × (render_all schemas ks ≡ ok cs)
        × (yamls (filter is_installed cs) ≡ ts)
  unfolding render_all render
  AreDocuments-render_all [] [] no_kinds = ([], refl, refl)
  AreDocuments-render_all [] (t ∷ ts) ds = elim ds [ ]
  AreDocuments-render_all (k ∷ ks) (t ∷ ts) (installed p on ds) =
      let (c, first, yaml, origin) = rendered_if k _ _ _ p p.named p.printed in
      let (cs, rest, texts) = AreDocuments-render_all ks ts ds in
      (
        c ∷ cs,
        and_rest_if k ks c cs first rest,
        kept c cs (ap has_controller origin ∙ on) ∙ cc (yaml, texts),
      )
  AreDocuments-render_all (k ∷ ks) ts (left_out p off ds) =
      let (c, first, yaml, origin) = rendered_if k _ _ _ p p.named p.printed in
      let (cs, rest, texts) = AreDocuments-render_all ks ts ds in
      (
        c ∷ cs,
        and_rest_if k ks c cs first rest,
        dropped c cs (ap has_controller origin ∙ off) ∙ texts,
      )

  first_given :
      (ks : List Kind) (t : String) (ts : List String)
      → AreDocuments schemas ks (t ∷ ts)
      → is_empty_text t ≡ false
  first_given [] t ts ds = elim ds [ ]
  first_given (k ∷ ks) t ts (installed p on ds) = document_given k _
  first_given (k ∷ ks) t ts (left_out p off ds) = first_given ks t ts ds

  joined :
      (ks : List Kind) (cs : List GeneratedCrd)
      → AreDocuments schemas ks (yamls cs)
      → documents "" cs ≡ join "---\n" (yamls cs)
  unfolding documents join is_empty_text
  joined ks [] ds = refl
  joined ks (c ∷ cs) ds = documents-join c.yaml cs (first_given ks c.yaml (yamls cs) ds)

  -- The manifest for installation is rendered exactly when the definition of every kind, with a controller
  -- or without, has a name and is printed; it consists of the documents of the kinds that have a
  -- controller, in order, with a separator between two.
  pub render_installed_manifest_iff :
      (text : String)
      → (render_installed_manifest schemas ≡ ok text)
        ↔ ((ts : List String) × AreDocuments schemas kinds ts × (text ≡ join "---\n" ts))
  unfolding render_installed_manifest
  render_installed_manifest_iff text = (
    λ h.
        let (cs, all, same) = installed_of_ok (render_all schemas kinds) text h in
        let ds = render_all-AreDocuments kinds cs all in
        (yamls (filter is_installed cs), ds, same ∙ joined kinds (filter is_installed cs) ds),
    λ (ts, ds, same).
        let (cs, all, texts) = AreDocuments-render_all kinds ts ds in
        let these = subst (AreDocuments schemas kinds) (sym texts) ds in
        let written = joined kinds (filter is_installed cs) these in
        ap installed_of all ∙ ap ok (written ∙ ap (join "---\n") texts ∙ sym same),
  )
