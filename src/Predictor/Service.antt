-- ===== src/Predictor/Service.antt =====
-- internal/predictor/service.go: one pass of the prediction service, which first reads what the
-- telemetry store gained since the last pass.
pub mod Laws
pub mod Outcomes
pub mod Fed
pub mod Runs
use aegis_llm_control_plane.Base.{
  ℕ, String, Bool, Option, some, List, [], ◌∷◌, ok, err, Result, if◌then◌else◌, ltb, length, drop,
  proceed,
}
use aegis_llm_control_plane.Base.Int.{pos, le_int, Time, Duration}
use aegis_llm_control_plane.Errors.{
  Error, Outcome, interval_not_positive, horizon_not_positive, is_insufficient_history,
}
use aegis_llm_control_plane.Ticker.{Event, run_loop}
use aegis_llm_control_plane.Telemetry.Types.{Record}
use aegis_llm_control_plane.Predictor.Types.{Forecast}
use aegis_llm_control_plane.Predictor.History.{
  HistoryStore, new_history_store, add, recent, worker_ids,
}
use aegis_llm_control_plane.Predictor.Results.{ResultStore, set}

-- `Forecaster`, its `Forecast`.
abbrev pub Forecaster : Type 0 → Type 0
Forecaster F = List (Record F) → Duration → Outcome (Forecast F)

-- The service without its telemetry store, of which a pass is given the listing.
pub record Service (F : Type 0) : Type 0 where
  pub forecaster : Forecaster F
  pub history : HistoryStore F
  pub results : ResultStore F
  pub interval : Duration
  pub horizon : Duration
  pub processed_records : ℕ

module _ {F : Type 0} where
  unfoldable pub new_service : Forecaster F → ResultStore F → Duration → Duration → Service F
  new_service forecaster results interval horizon = record {
    forecaster = forecaster;
    history = new_history_store (pos 16);
    results = results;
    interval = interval;
    horizon = horizon;
    processed_records = 0;
  }

  -- A listing shorter than what was processed is that of another store: the history starts again.
  unfoldable pub restart : List (Record F) → Service F → Service F
  restart records s =
      if ltb (length records) s.processed_records
      then record s { history = new_history_store (pos 16); processed_records = 0 }
      else s

  unfoldable pub add_all : List (Record F) → HistoryStore F → HistoryStore F
  add_all [] s = s
  add_all (r ∷ rs) s = add_all rs (add r s)

  -- `records[s.processedRecords:]`, and the new count.
  unfoldable pub absorb : List (Record F) → Service F → Service F
  absorb records s = record s {
    history = add_all (drop s.processed_records records) s.history;
    processed_records = length records;
  }

  -- `clock` is what `time.Now()` returns when the worker's result is set.
  abbrev pub keep_forecast :
      (String → Time) → String → Outcome (Forecast F) → Service F → Outcome (Unit {0}) × Service F
  keep_forecast clock id (ok f) s = (
    ok tt,
    record s { results = set (record { forecast = f; generated_at = clock id }) s.results },
  )
  keep_forecast clock id (err e) s = (if is_insufficient_history e then ok tt else err e, s)

  unfoldable pub forecast_worker :
      (String → Time) → String → Service F → Outcome (Unit {0}) × Service F
  forecast_worker clock id s =
      keep_forecast clock id (s.forecaster (recent id (pos 16) s.history) s.horizon) s

  unfoldable pub forecast_workers :
      (String → Time) → List String → Service F → Outcome (Unit {0}) × Service F
  forecast_workers clock [] s = (ok tt, s)
  forecast_workers clock (id ∷ ids) s =
      let r = forecast_worker clock id s in proceed r.0 (λ _. forecast_workers clock ids) r.1

  -- `listed` is what the store's `List` returns.
  unfoldable pub predict :
      (String → Time) → Outcome (List (Record F)) → Service F → Outcome (Unit {0}) × Service F
  predict clock (err e) s = (err e, s)
  predict clock (ok records) s =
      let fed = absorb records (restart records s) in
      forecast_workers clock (worker_ids fed.history) fed

  -- A tick brings what the store's `List` then returns, and the readings of the clock in its pass.
  unfoldable pub run :
      List (Event (Outcome (List (Record F)) × (String → Time)))
      → Service F
      → Option Error × Service F
  run events s =
      if le_int s.interval (pos 0)
      then (some interval_not_positive, s)
      else if le_int s.horizon (pos 0)
      then (some horizon_not_positive, s)
      else run_loop (λ t. predict t.1 t.0) events s
