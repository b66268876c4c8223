-- ===== src/Telemetry/Pressure.antt =====
-- internal/telemetry/pressure.go: the pressure that a record shows.
use aegis_llm_control_plane.Base.{Bool, ◌||◌}
use aegis_llm_control_plane.Base.Float.{Float64}
use aegis_llm_control_plane.Telemetry.Types.{Record}

pub record PressureLabel : Type 0 where
  pub memory_pressure : Bool
  pub compute_pressure : Bool
  pub contention : Bool

module _ {F : Type 0} ⦃fl : Float64 F⦄ where
  abbrev pub default_memory_pressure_threshold : F
  default_memory_pressure_threshold = fl.of_uint 85

  abbrev pub default_compute_pressure_threshold : F
  default_compute_pressure_threshold = fl.of_uint 90

  unfoldable pub label_pressure : Record F → PressureLabel
  label_pressure r = record {
    memory_pressure = memory;
    compute_pressure = compute;
    contention = memory || compute;
  }
    where
      memory : Bool
      memory = fl.le default_memory_pressure_threshold r.memory_utilization

      compute : Bool
      compute = fl.le default_compute_pressure_threshold r.compute_utilization
