-- ===== src/Crd/Generate/Kinds.antt =====
-- The kinds of src/crd/generate.rs: what `generated_crds` renders, and the controller of each.
use streamline_operator.Base.{String, List, [], ◌∷◌}
use streamline_operator.Base.Text.{format}

pub data Reconciliation : Type 0 where
  reconciled_by : String → Reconciliation
  unreconciled : String → Reconciliation

-- The arguments of one call of `render` in `generated_crds`, the definition aside.
pub record Kind : Type 0 where
  pub kind : String
  pub source : String
  pub reconciliation : Reconciliation

abbrev pub cluster_kind : Kind
cluster_kind = record {
  kind = "StreamlineCluster";
  source = "src/crd/cluster.rs";
  reconciliation = reconciled_by "ClusterController";
}

abbrev pub topic_kind : Kind
topic_kind = record {
  kind = "StreamlineTopic";
  source = "src/crd/topic.rs";
  reconciliation = reconciled_by "TopicController";
}

abbrev pub user_kind : Kind
user_kind = record {
  kind = "StreamlineUser";
  source = "src/crd/user.rs";
  reconciliation = reconciled_by "UserController";
}

abbrev pub branch_kind : Kind
unfolding format
branch_kind = record {
  kind = "StreamlineBranch";
  source = "src/crd/branch.rs";
  reconciliation = unreconciled (
      format (
        "the Streamline server's branch API is behind the non-default "
        ∷ "`branches` cargo feature (absent from both `lite` and `full`) and "
        ∷ "takes {base_topic, name, base_offsets, created_by} with "
        ∷ "`<base_topic>:<name>` identifiers, which this CRD cannot express" ∷ []));
}

abbrev pub contract_kind : Kind
unfolding format
contract_kind = record {
  kind = "StreamlineContract";
  source = "src/crd/contract.rs";
  reconciliation = unreconciled (
      format (
        "the Streamline server exposes POST /api/v1/contracts/{validate,apply} "
        ∷ "taking {contract: {topic, version, schema_id, assertions}, partition, "
        ∷ "value}; there is no POST /api/v1/contracts and no "
        ∷ "schema/compatibility/bindTopics contract this CRD could apply" ∷ []));
}

abbrev pub memory_kind : Kind
unfolding format
memory_kind = record {
  kind = "StreamlineMemory";
  source = "src/crd/memory.rs";
  reconciliation = unreconciled (
      format (
        "the Streamline server's memory API is behind the non-default "
        ∷ "`agent-memory` cargo feature and is a remember/recall endpoint, not a "
        ∷ "provisioning API; a controller could only create plain topics and "
        ∷ "then report memory tiers Ready that nothing implements" ∷ []));
}

abbrev pub backup_kind : Kind
unfolding format
backup_kind = record {
  kind = "StreamlineBackup";
  source = "src/crd/backup.rs";
  reconciliation = unreconciled ("the Streamline server exposes no backup or restore API");
}

abbrev pub edge_kind : Kind
unfolding format
edge_kind = record {
  kind = "StreamlineEdge";
  source = "src/crd/edge.rs";
  reconciliation = unreconciled (
      format (
        "the Streamline server's edge sync support is behind the non-default "
        ∷ "`edge` cargo feature and exposes no endpoint this CRD could reconcile" ∷ []));
}

-- The calls of `generated_crds`, in order.
abbrev pub kinds : List Kind
unfolding format
kinds =
    cluster_kind ∷ topic_kind ∷ user_kind ∷ branch_kind ∷ contract_kind ∷ memory_kind ∷ backup_kind
    ∷ edge_kind ∷ []
