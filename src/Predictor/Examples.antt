-- ===== src/Predictor/Examples.antt =====
-- The theorems on forecasts and on the passes of the prediction service at examples.
use aegis_llm_control_plane.Base.{
  ◌++◌, ◌≡◌, refl, inl, false, String, List, [], ◌∷◌, some, none, ok, arith,
}
use aegis_llm_control_plane.Base.Dict.{lookup, insert}
use aegis_llm_control_plane.Base.Int.{pos, seconds, Time, time_sub, ◌-ℤ◌, ◌+ℤ◌, ◌*ℤ◌}
use aegis_llm_control_plane.Base.Float.{Whole, whole_float, Whole-IsIeee}
use aegis_llm_control_plane.Errors.{insufficient_history, is_insufficient_history}
use aegis_llm_control_plane.Cluster.Types.{Snapshot}
use aegis_llm_control_plane.Cluster.Examples.{example_worker}
use aegis_llm_control_plane.Telemetry.Types.{Record}
use aegis_llm_control_plane.Telemetry.Memory.{in_memory, list}
use aegis_llm_control_plane.Telemetry.Collector.{Calls, record_snapshot}
use aegis_llm_control_plane.Predictor.Types.{Forecast}
use aegis_llm_control_plane.Predictor.History.{new_history_store, add, recent}
use aegis_llm_control_plane.Predictor.Results.{set, get}
use aegis_llm_control_plane.Predictor.Trend.{
  no_uncertainty, clamp, new_trend_predictor, extrapolate, forecast_at_horizon,
  estimate_uncertainty, forecast,
}
use aegis_llm_control_plane.Predictor.Trend.Laws.{IsForecast, forecast_succeeds, forecast_fails}
use aegis_llm_control_plane.Predictor.Service.{
  Service, new_service, restart, add_all, absorb, forecast_worker, forecast_workers, predict, run,
}
use aegis_llm_control_plane.Predictor.Service.Laws.{Replays}
use aegis_llm_control_plane.Predictor.Trend.Samples.{IsFailure}
use aegis_llm_control_plane.Predictor.Service.Runs.{ReplaysPart, run-ReplaysPart}
use aegis_llm_control_plane.Ticker.{Event, tick, done}
use aegis_llm_control_plane.Errors.{Outcome, canceled}
use aegis_llm_control_plane.Predictor.Service.Outcomes.{predict_results}
use aegis_llm_control_plane.Predictor.Service.Fed.{collected-Replays}
use Prim.Native.Nat.{ℕ}

abbrev sample : ℕ → ℕ → Record Whole
sample at memory = record {
  timestamp = seconds at;
  worker_id = "a";
  worker_state = "HEALTHY";
  available_memory_mb = 90;
  total_memory_mb = 100;
  compute_utilization = some (pos 10);
  memory_utilization = some (pos memory);
  active_workload_count = pos 0;
  topology_domain = "";
  workload_id = "";
  workload_state = "";
  model_id = "";
  priority = "";
  required_memory_mb = 0;
  estimated_compute = some (pos 0);
  latency_slo = pos 0;
  checkpointable = false;
  assigned_worker_id = "";
}

abbrev samples : List (Record Whole)
samples = sample 10 10 ∷ sample 20 20 ∷ sample 30 30 ∷ []

abbrev expected : Forecast Whole
expected = record {
  worker_id = "a";
  horizon = seconds 10;
  predicted_memory_utilization = some (pos 40);
  predicted_compute_utilization = some (pos 10);
  predicted_contention = false;
  uncertainty = no_uncertainty;
}

forecast_succeeds_example :
    (f : Forecast Whole) × (forecast new_trend_predictor samples (seconds 10) ≡ ok f)
    × IsForecast samples (sample 30 30) (seconds 10) f
unfolding time_sub ◌-ℤ◌
forecast_succeeds_example =
    forecast_succeeds Whole-IsIeee samples (seconds 10) (sample 10 10) (sample 20 20) (sample 30 30)
      (omega arith) refl (refl, refl)

forecast_fails_example : IsFailure (sample 10 10 ∷ []) insufficient_history
unfolding forecast
forecast_fails_example =
    forecast_fails Whole-IsIeee (sample 10 10 ∷ []) (seconds 10) insufficient_history refl

abbrev clock : String → Time
clock id = seconds 40

abbrev fresh : Service Whole
fresh = new_service (forecast new_trend_predictor) [] (seconds 1) (seconds 10)

fresh-Replays : Replays fresh []
unfolding new_service add_all
fresh-Replays = record { count = refl; content = refl }

abbrev ticks : List (Event (Outcome (List (Record Whole)) × (String → Time)))
ticks =
    tick (ok (sample 10 10 ∷ []), clock)
    ∷ tick (ok samples, clock)
    ∷ tick (ok (sample 10 10 ∷ []), clock)
    ∷ done canceled
    ∷ []

part : (rest : List (Record Whole)) × (samples ≡ (sample 10 10 ∷ []) ++ rest)
part = (sample 20 20 ∷ sample 30 30 ∷ [], refl)

run-ReplaysPart_example : ReplaysPart samples (run ticks fresh).1
run-ReplaysPart_example =
    run-ReplaysPart samples ticks fresh (part, (([], refl), (part, tt)))
      ([], ((samples, refl), fresh-Replays))

predict_results_example :
    get (predict clock (ok samples) fresh).1.results "a"
    ≡ some (record { forecast = expected; generated_at = seconds 40 })
unfolding new_service time_sub ◌-ℤ◌ ◌+ℤ◌ ◌*ℤ◌ predict absorb restart add_all add recent lookup
    insert new_history_store forecast_workers forecast_worker set clamp new_trend_predictor
    extrapolate forecast_at_horizon estimate_uncertainty forecast is_insufficient_history
predict_results_example =
    predict_results Whole-IsIeee clock [] samples fresh "a" expected refl fresh-Replays
      (inl (samples, refl)) refl refl

abbrev one_worker : Snapshot Whole
one_worker = record { workers = example_worker "a" 100 100 ∷ []; workloads = [] }

abbrev calls : Calls (List (Record Whole))
calls = record { store = []; contexts = [] }

collected-Replays_example :
    Replays
      (predict clock
        (list none (record_snapshot in_memory one_worker (seconds 10) calls).1.store).0
        fresh).1
      (record_snapshot in_memory one_worker (seconds 10) calls).1.store
collected-Replays_example =
    collected-Replays clock one_worker (seconds 10) calls fresh fresh-Replays
