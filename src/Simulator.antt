-- ===== src/Simulator.antt =====
-- internal/simulator: synthetic utilizations, the seeds of a cluster, and the end of workloads.
pub mod Scenario
pub mod Lifecycle
pub mod Workers
pub mod Seeds
pub mod Examples
