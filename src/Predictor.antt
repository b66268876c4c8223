-- ===== src/Predictor.antt =====
-- internal/predictor: telemetry history, forecasts with their uncertainty, and their store.
pub mod Types
pub mod History
pub mod Results
pub mod Estimator
pub mod Trend
pub mod Service
pub mod Examples
