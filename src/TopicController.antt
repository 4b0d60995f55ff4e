-- ===== src/TopicController.antt =====
-- src/controllers/topic.rs: the gate on unsupported settings, the comparison with what the server
-- reports, the statuses, and the reconciler that puts them together.
pub mod Gate
pub mod Sync
pub mod Statuses
pub mod Calls
pub mod Topics
pub mod Reconcile
