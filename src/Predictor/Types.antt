-- ===== src/Predictor/Types.antt =====
-- internal/predictor: forecast.go, uncertainty.go and the result of result_store.go.
use aegis_llm_control_plane.Base.{String, Bool, List}
use aegis_llm_control_plane.Base.Int.{ℤ, Time, Duration}

pub record Uncertainty (F : Type 0) : Type 0 where
  pub memory_error : F
  pub compute_error : F
  pub sample_count : ℤ

pub record ErrorSamples (F : Type 0) : Type 0 where
  pub actual_memory : List F
  pub predicted_memory : List F
  pub actual_compute : List F
  pub predicted_compute : List F

pub record Forecast (F : Type 0) : Type 0 where
  pub worker_id : String
  pub horizon : Duration
  pub predicted_memory_utilization : F
  pub predicted_compute_utilization : F
  pub predicted_contention : Bool
  pub uncertainty : Uncertainty F

-- `predictor.Result`
pub record Prediction (F : Type 0) : Type 0 where
  pub forecast : Forecast F
  pub generated_at : Time
