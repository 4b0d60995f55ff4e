-- ===== src/Crd.antt =====
-- src/crd: the custom resources. `Meta` is what the operator reads of an object's metadata.
pub mod Meta
pub mod Env
pub mod Cluster
pub mod Topic
pub mod User
pub mod Generate
pub mod Preview
