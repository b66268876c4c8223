-- ===== src/Cluster.antt =====
-- internal/cluster: workers, workloads, the state store and its checks.
pub mod Types
pub mod Topology
pub mod Health
pub mod Validation
pub mod Store
pub mod Reconcile
pub mod Examples
