-- ===== src/Telemetry.antt =====
-- internal/telemetry: samples of DCGM and their way into the cluster's state.
pub mod Types
pub mod Pressure
pub mod Dcgm
pub mod Memory
pub mod Collector
