-- ===== src/ClusterController.antt =====
-- src/controllers/cluster.rs: the controller of StreamlineCluster resources.
pub mod Addresses
pub mod Config
pub mod Workloads
pub mod Statuses
pub mod Calls
pub mod Reconcile
