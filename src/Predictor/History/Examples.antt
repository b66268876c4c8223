-- ===== src/Predictor/History/Examples.antt =====
-- The theorems on histories and on stored predictions at examples.
use aegis_llm_control_plane.Base.{◌≡◌, ◌≢◌, refl, false, eq_iff, [], ◌∷◌, some, arith}
use aegis_llm_control_plane.Base.Dict.{lookup}
use aegis_llm_control_plane.Base.Int.{pos, seconds}
use aegis_llm_control_plane.Base.Float.{Whole, whole_float}
use aegis_llm_control_plane.Telemetry.Types.{Record}
use aegis_llm_control_plane.Predictor.Types.{Prediction}
use aegis_llm_control_plane.Predictor.History.{HistoryStore, new_history_store, add, recent}
use aegis_llm_control_plane.Predictor.History.Laws.{IsBounded, add-IsBounded, recent-add}

abbrev observed : Record Whole
observed = record {
  timestamp = seconds 10;
  worker_id = "a";
  worker_state = "HEALTHY";
  available_memory_mb = 90;
  total_memory_mb = 100;
  compute_utilization = some (pos 10);
  memory_utilization = some (pos 10);
  active_workload_count = pos 0;
  topology_domain = "";
  workload_id = "";
  workload_state = "";
  model_id = "";
  priority = "";
  required_memory_mb = 0;
  estimated_compute = some (pos 0);
  latency_slo = pos 0;
  checkpointable = false;
  assigned_worker_id = "";
}

abbrev empty : HistoryStore Whole
empty = new_history_store (pos 1)

empty-IsBounded : IsBounded empty
unfolding new_history_store lookup
empty-IsBounded id history e = cc

add-IsBounded_example : IsBounded (add observed empty)
add-IsBounded_example = add-IsBounded observed empty empty-IsBounded

a_named : observed.worker_id ≢ ""
a_named = ground (arith, eq_iff observed.worker_id "")

recent-add_example : recent "a" (pos 1) (add observed empty) ≡ observed ∷ []
unfolding new_history_store lookup
recent-add_example = recent-add observed empty a_named refl (omega arith)

abbrev predicted : Prediction Whole
predicted = record {
  forecast = record {
    worker_id = "a";
    horizon = seconds 10;
    predicted_memory_utilization = some (pos 30);
    predicted_compute_utilization = some (pos 20);
    predicted_contention = false;
    uncertainty = record {
      memory_error = some (pos 1);
      compute_error = some (pos 1);
      sample_count = pos 1;
    };
  };
  generated_at = seconds 10;
}
