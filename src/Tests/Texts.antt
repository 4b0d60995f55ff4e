-- ===== src/Tests/Texts.antt =====
-- The theorems on the texts that the operator prints, each at a concrete input.
use streamline_operator.Base.{String, some, List, [], ◌∷◌, ◌≡◌, ◌↔◌, ok}
use streamline_operator.Base.Text.{format, join}
use streamline_operator.Metrics.{duration_buckets_ms}
use streamline_operator.Metrics.Render.{histogram_header, totals, render_histogram}
use streamline_operator.Metrics.Render.Exposition.{
  observe_all, expected_lines, render_histogram-observe_all,
}
use streamline_operator.Crd.Generate.Kinds.{kinds, cluster_kind, topic_kind, user_kind}
use streamline_operator.Crd.Generate.{Schemas, document, render_installed_manifest}
use streamline_operator.Crd.Generate.Installed.{AreDocuments, render_installed_manifest_iff}

render_histogram-observe_all_example :
    render_histogram (observe_all (20000 ∷ 7 ∷ 5 ∷ []))
    ≡ format (
        histogram_header
        ∷ format (expected_lines duration_buckets_ms (20000 ∷ 7 ∷ 5 ∷ []))
        ∷ totals 20012 3
        ∷ [])
render_histogram-observe_all_example = render_histogram-observe_all (20000 ∷ 7 ∷ 5 ∷ [])

-- Definitions that are only their names.
abbrev named : Schemas
named = record {
  Definition = String;
  definition = λ kind. kind;
  metadata_name = λ kind. some kind;
  to_yaml = λ kind. ok kind;
}

abbrev installed_text : String
installed_text = join "---\n" (
    document cluster_kind "StreamlineCluster"
    ∷ document topic_kind "StreamlineTopic"
    ∷ document user_kind "StreamlineUser"
    ∷ [])

render_installed_manifest_iff_example :
    (render_installed_manifest named ≡ ok installed_text)
    ↔ ((ts : List String) × AreDocuments named kinds ts × (installed_text ≡ join "---\n" ts))
render_installed_manifest_iff_example = render_installed_manifest_iff named installed_text
