-- ===== src/Simulator/Scenario.antt =====
-- internal/simulator/scenario.go: the utilization of a worker at a step.
pub mod Laws
use aegis_llm_control_plane.Base.{String, Bool, ◌&&◌, ◌==◌, ok, err, if◌then◌else◌}
use aegis_llm_control_plane.Base.Int.{ℤ, pos, ◌*ℤ◌, wrap_int, lt_int, le_int}
use aegis_llm_control_plane.Base.Float.{Float64}
use aegis_llm_control_plane.Errors.{Error, Outcome, unknown_scenario}

abbrev pub Scenario : Type 0
Scenario = String

abbrev pub scenario_steady : Scenario
scenario_steady = "STEADY"

abbrev pub scenario_rising_pressure : Scenario
scenario_rising_pressure = "RISING_PRESSURE"

abbrev pub scenario_burst : Scenario
scenario_burst = "BURST"

abbrev pub scenario_distribution_shift : Scenario
scenario_distribution_shift = "DISTRIBUTION_SHIFT"

pub record Utilization (F : Type 0) : Type 0 where
  pub compute : F
  pub memory : F

module _ {F : Type 0} ⦃fl : Float64 F⦄ where
  open fl use {of_uint, of_int, add, sub, mul, lt}

  unfoldable pub clamp_utilization : F → F
  clamp_utilization value =
      if lt value (of_uint 0)
      then of_uint 0
      else if lt (of_uint 100) value
      then of_uint 100
      else value

  -- `float64(workerIndex * 2)`, with the product of ints
  abbrev pub offset : ℤ → F
  offset worker_index = of_int (wrap_int (worker_index *ℤ pos 2))

  abbrev pub clamped : F → F → Utilization F
  clamped compute memory = record {
    compute = clamp_utilization compute;
    memory = clamp_utilization memory;
  }

  unfoldable pub steady_utilization : ℤ → Utilization F
  steady_utilization worker_index =
      clamped (add (of_uint 42) (offset worker_index)) (add (of_uint 48) (offset worker_index))

  unfoldable pub rising_pressure_utilization : ℤ → ℤ → Utilization F
  rising_pressure_utilization step worker_index =
      clamped (add (add (of_uint 30) (mul (of_int step) (of_uint 5))) (offset worker_index))
        (add (add (of_uint 35) (mul (of_int step) (of_uint 5))) (offset worker_index))

  unfoldable pub burst_utilization : ℤ → ℤ → Utilization F
  burst_utilization step worker_index =
      if le_int (pos 6) step && le_int step (pos 8)
      then clamped (add (of_uint 96) (offset worker_index)) (add (of_uint 92) (offset worker_index))
      else clamped (add (of_uint 38) (offset worker_index)) (add (of_uint 44) (offset worker_index))

  unfoldable pub distribution_shift_utilization : ℤ → ℤ → Utilization F
  distribution_shift_utilization step worker_index =
      if lt_int step (pos 8)
      then (clamped (add (add (of_uint 30) (mul (of_int step) (of_uint 5))) (offset worker_index))
          (add (add (of_uint 35) (mul (of_int step) (of_uint 5))) (offset worker_index)))
      else if lt_int step (pos 11)
      then (clamped (sub (of_uint 95) (mul (of_int worker_index) (of_uint 3)))
          (sub (of_uint 96) (mul (of_int worker_index) (of_uint 2))))
      else clamped (add (of_uint 35) (offset worker_index)) (add (of_uint 40) (offset worker_index))

  unfoldable pub utilization : Scenario → ℤ → ℤ → Outcome (Utilization F)
  utilization s step worker_index =
      if s == scenario_steady
      then ok (steady_utilization worker_index)
      else if s == scenario_rising_pressure
      then ok (rising_pressure_utilization step worker_index)
      else if s == scenario_burst
      then ok (burst_utilization step worker_index)
      else if s == scenario_distribution_shift
      then ok (distribution_shift_utilization step worker_index)
      else err (unknown_scenario s)
