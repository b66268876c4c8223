-- ===== src/Predictor/Results.antt =====
-- internal/predictor/result_store.go: the latest prediction for each worker.
pub mod Laws
use aegis_llm_control_plane.Base.{String, ◌==◌, Option, [], if◌then◌else◌}
use aegis_llm_control_plane.Base.Dict.{Dict, lookup, insert}
use aegis_llm_control_plane.Predictor.Types.{Prediction}

abbrev pub ResultStore : Type 0 → Type 0
ResultStore F = Dict (Prediction F)

module _ {F : Type 0} where
  abbrev pub new_result_store : ResultStore F
  new_result_store = []

  unfoldable pub set : Prediction F → ResultStore F → ResultStore F
  set result s =
      if result.forecast.worker_id == "" then s else insert result.forecast.worker_id result s

  unfoldable pub get : ResultStore F → String → Option (Prediction F)
  get s worker_id = lookup worker_id s

  -- A copy of the map.
  abbrev pub snapshot : ResultStore F → Dict (Prediction F)
  snapshot s = s
