-- ===== src/Crd/Generate.antt =====
-- src/crd/generate.rs: the manifests of the custom resource definitions. What the derive macros define,
-- and what serde_yaml prints, is not in the repository: a parameter.
pub mod Kinds
pub mod Installed
use streamline_operator.Base.{
  ℕ, String, Bool, true, false, Option, none, some, List, [], ◌∷◌, ◌++◌, Result, ok, err, map,
  filter, if◌then◌else◌,
}
use streamline_operator.Base.Text.{format, to_lowercase, join_path, is_empty_text}
use streamline_operator.Error.{OperatorError, serialization, internal}
use streamline_operator.Crd.Generate.Kinds.{
  Reconciliation, reconciled_by, unreconciled, Kind, kinds,
}
use streamline_operator.Runtime.{Exec, pure, fail, call, ◌>>=◌, ◌>>◌}

pub record GeneratedCrd : Type 0 where
  pub kind : String
  pub source : String
  pub reconciliation : Reconciliation
  pub metadata_name : String
  pub file_name : String
  pub yaml : String

abbrev pub has_controller : Reconciliation → Bool
has_controller (reconciled_by _) = true
has_controller (unreconciled _) = false

abbrev pub is_installed : GeneratedCrd → Bool
is_installed crd = has_controller crd.reconciliation

abbrev pub crd_dir : String
crd_dir = "deploy/crds"

-- The definition of a kind (`T::crd()`), its name, and its YAML or the text of the error.
pub record Schemas : Type 1 where
  pub Definition : Type 0
  pub definition : String → Definition
  pub metadata_name : Definition → Option String
  pub to_yaml : Definition → Result String String

abbrev pub by_line : Reconciliation → String
by_line (reconciled_by controller) =
    format (
      "# Reconciled by: " ∷ controller ∷ " (installed via " ∷ crd_dir ∷ "/kustomization.yaml)."
      ∷ [])
by_line (unreconciled reason) = format (
    "# Reconciled by: nothing — schema only, deliberately NOT installed by\n# " ∷ crd_dir
    ∷ "/kustomization.yaml, NOT granted RBAC, and NOT started by the\n"
    ∷ "# operator, so it cannot advertise unsupported behaviour.\n# Reason: " ∷ reason ∷ [])

abbrev pub document : Kind → String → String
document k body = format (
    "# Generated by `streamline-operator --generate-crds`. DO NOT EDIT.\n#\n# Source of truth: "
    ∷ k.source
    ∷ " (`#[kube(...)]` annotations).\n# Regenerate with: make generate-crds\n"
    ∷ by_line k.reconciliation
    ∷ "\n"
    ∷ body
    ∷ [])

abbrev pub rendered :
    Kind → Option String → Result String String → Result OperatorError GeneratedCrd
rendered k none body =
    err (serialization (format ("generated CRD for " ∷ k.kind ∷ " has no metadata.name" ∷ [])))
rendered k (some name) (err e) =
    err (serialization (format ("failed to render " ∷ k.kind ∷ " CRD: " ∷ e ∷ [])))
rendered k (some name) (ok body) = ok (record {
  kind = k.kind;
  source = k.source;
  reconciliation = k.reconciliation;
  metadata_name = name;
  file_name = format (to_lowercase k.kind ∷ "-crd.yaml" ∷ []);
  yaml = document k body;
})

-- `for` with `?`, collected: the first error ends it.
abbrev pub and_rest :
    Result OperatorError GeneratedCrd
    → Result OperatorError (List GeneratedCrd)
    → Result OperatorError (List GeneratedCrd)
and_rest (err e) rest = err e
and_rest (ok crd) (err e) = err e
and_rest (ok crd) (ok crds) = ok (crd ∷ crds)

-- A document after what is written so far.
abbrev pub push_document : String → String → String
push_document out yaml = if is_empty_text out then yaml else format (out ∷ "---\n" ∷ yaml ∷ [])

unfoldable pub documents : String → List GeneratedCrd → String
unfolding format is_empty_text
documents out [] = out
documents out (crd ∷ crds) = documents (push_document out crd.yaml) crds

abbrev pub installed_of : Result OperatorError (List GeneratedCrd) → Result OperatorError String
installed_of (err e) = err e
installed_of (ok crds) = ok (documents "" (filter is_installed crds))

-- A call of `std::fs`, with the path.
pub data FileCall : Type 0 where
  create_dir_all : String → FileCall
  write_file : String → String → FileCall

module _ (schemas : Schemas) where
  unfoldable pub render : Kind → Result OperatorError GeneratedCrd
  unfolding format to_lowercase
  render k =
      let crd = schemas.definition k.kind in
      rendered k (schemas.metadata_name crd) (schemas.to_yaml crd)

  unfoldable pub render_all : List Kind → Result OperatorError (List GeneratedCrd)
  unfolding render
  render_all [] = ok []
  render_all (k ∷ ks) = and_rest (render k) (render_all ks)

  abbrev pub generated_crds : Result OperatorError (List GeneratedCrd)
  generated_crds = render_all kinds

  unfoldable pub render_installed_manifest : Result OperatorError String
  unfolding render_all documents
  render_installed_manifest = installed_of generated_crds

  module _ (files : List FileCall → FileCall → Result String (Unit {0})) where
    -- A call whose error is `Internal`.
    abbrev pub file_result : String → String → Result String (Unit {0}) → Exec FileCall (Unit {0})
    file_result verb path (ok _) = pure tt
    file_result verb path (err e) =
        fail (internal (format ("failed to " ∷ verb ∷ " " ∷ path ∷ ": " ∷ e ∷ [])))

    unfoldable pub create : String → Exec FileCall (Unit {0})
    unfolding call pure fail format
    create dir = do
      answer ← call (create_dir_all dir) (λ before. files before (create_dir_all dir))
      file_result "create" dir answer

    unfoldable pub write : String → String → Exec FileCall (Unit {0})
    unfolding call pure fail format
    write path yaml = do
      answer ← call (write_file path yaml) (λ before. files before (write_file path yaml))
      file_result "write" path answer

    unfoldable pub write_each : String → List GeneratedCrd → Exec FileCall (List String)
    unfolding write pure join_path
    write_each dir [] = pure []
    write_each dir (crd ∷ crds) = do
      write (join_path dir crd.file_name) crd.yaml
      paths ← write_each dir crds
      pure (join_path dir crd.file_name ∷ paths)

    abbrev pub write_generated :
        String → Result OperatorError (List GeneratedCrd) → Exec FileCall (List String)
    write_generated dir (err e) = fail e
    write_generated dir (ok crds) = write_each dir crds

    unfoldable pub write_crds : String → Exec FileCall (List String)
    unfolding create write_each render_all fail
    write_crds dir = do create dir; write_generated dir generated_crds
