-- ===== src/Scheduler.antt =====
-- internal/scheduler: scoring and selection of workers, the order of workloads, and placement.
pub mod Score
pub mod Select
pub mod Predictive
pub mod RiskAware
pub mod Queue
pub mod Placement
pub mod Service
pub mod Examples
