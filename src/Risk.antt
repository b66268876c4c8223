-- ===== src/Risk.antt =====
-- internal/risk: model.go and evaluator.go, the placement risk of a worker.
pub mod Laws
use aegis_llm_control_plane.Base.{ℕ, String, eqb, if◌then◌else◌}
use aegis_llm_control_plane.Base.Float.{Float64}
use aegis_llm_control_plane.Cluster.Types.{Worker, Workload}
use aegis_llm_control_plane.Predictor.Types.{Prediction}

abbrev pub Level : Type 0
Level = String

abbrev pub level_low : Level
level_low = "LOW"

abbrev pub level_moderate : Level
level_moderate = "MODERATE"

abbrev pub level_high : Level
level_high = "HIGH"

abbrev pub level_critical : Level
level_critical = "CRITICAL"

pub record Breakdown (F : Type 0) : Type 0 where
  pub memory_pressure : F
  pub compute_pressure : F
  pub forecast_uncertainty : F
  pub workload_demand : F

pub record PlacementRisk (F : Type 0) : Type 0 where
  pub worker_id : String
  pub workload_id : String
  pub score : F
  pub level : Level
  pub breakdown : Breakdown F

-- The inputs of `Evaluate`.
pub record Inputs (F : Type 0) : Type 0 where
  pub workload : Workload F
  pub worker : Worker F
  pub forecast : Prediction F

-- `Evaluator` is an empty struct.
abbrev pub Evaluator : Type 0
Evaluator = Unit

module _ {F : Type 0} ⦃fl : Float64 F⦄ where
  open fl use {of_uint, add, mul, div, lt, le}

  unfoldable pub clamp : F → F → F → F
  clamp value minimum maximum =
      if lt value minimum then minimum else if lt maximum value then maximum else value

  -- The local `projectedMemory`.
  abbrev pub projected_memory : Workload F → Worker F → Prediction F → F
  projected_memory workload worker forecast =
      add
        (add forecast.forecast.predicted_memory_utilization
          forecast.forecast.uncertainty.memory_error)
        (mul (div (of_uint workload.required_memory_mb) (of_uint worker.total_memory_mb))
          (of_uint 100))

  unfoldable pub calculate_memory_pressure : Workload F → Worker F → Prediction F → F
  calculate_memory_pressure workload worker forecast =
      if eqb worker.total_memory_mb 0
      then of_uint 100
      else clamp (projected_memory workload worker forecast) (of_uint 0) (of_uint 100)

  -- The local `projectedCompute`.
  abbrev pub projected_compute : Prediction F → F
  projected_compute forecast =
      add forecast.forecast.predicted_compute_utilization
        forecast.forecast.uncertainty.compute_error

  unfoldable pub calculate_compute_pressure : Prediction F → F
  calculate_compute_pressure forecast = clamp (projected_compute forecast) (of_uint 0) (of_uint 100)

  unfoldable pub calculate_forecast_uncertainty : Prediction F → F
  calculate_forecast_uncertainty forecast =
      let errors = forecast.forecast.uncertainty in
      if lt errors.compute_error errors.memory_error
      then clamp errors.memory_error (of_uint 0) (of_uint 100)
      else clamp errors.compute_error (of_uint 0) (of_uint 100)

  unfoldable pub combine_pressure : F → F → F
  combine_pressure memory_pressure compute_pressure =
      if lt compute_pressure memory_pressure then memory_pressure else compute_pressure

  unfoldable pub level_for_score : F → Level
  level_for_score score =
      if le (of_uint 85) score
      then level_critical
      else if le (of_uint 70) score
      then level_high
      else if le (of_uint 50) score
      then level_moderate
      else level_low

  unfoldable pub evaluate : Evaluator → Inputs F → PlacementRisk F
  evaluate e inputs = record {
    worker_id = inputs.worker.id;
    workload_id = inputs.workload.id;
    score = score;
    level = level_for_score score;
    breakdown = record {
      memory_pressure = memory;
      compute_pressure = compute;
      forecast_uncertainty = calculate_forecast_uncertainty inputs.forecast;
      workload_demand = of_uint 0;
    };
  }
    where
      memory : F
      memory = calculate_memory_pressure inputs.workload inputs.worker inputs.forecast

      compute : F
      compute = calculate_compute_pressure inputs.forecast

      score : F
      score = combine_pressure memory compute
