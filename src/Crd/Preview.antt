-- ===== src/Crd/Preview.antt =====
-- The custom resources of src/crd that have no controller: their specs and statuses, and the defaults of
-- their fields.
pub mod Branch
pub mod Contract
pub mod Memory
pub mod Backup
pub mod Edge
