-- ===== src/Predictor/Trend.antt =====
-- internal/predictor/predictor.go: the forecast of a worker's utilization from its last records,
-- and its error on the records before.
pub mod Laws
pub mod Samples
use aegis_llm_control_plane.Base.{
  ℕ, suc, ◌/◌, ◌%◌, String, Bool, ◌||◌, List, [], ◌∷◌, ◌++◌, ok, err, bind, ltb, if◌then◌else◌,
  length, take_last,
}
use aegis_llm_control_plane.Base.Int.{ℤ, pos, negsuc, sub_ℕ, Duration, time_sub, le_int}
use aegis_llm_control_plane.Base.Float.{Float64}
use aegis_llm_control_plane.Errors.{
  Error, Outcome, insufficient_history, invalid_telemetry_interval, index_out_of_range,
}
use aegis_llm_control_plane.Telemetry.Types.{Record}
use aegis_llm_control_plane.Telemetry.Pressure.{
  default_memory_pressure_threshold, default_compute_pressure_threshold,
}
use aegis_llm_control_plane.Predictor.Types.{Uncertainty, ErrorSamples, Forecast}
use aegis_llm_control_plane.Predictor.Estimator.{estimate}

-- `UncertaintyEstimator`, its `Estimate`.
abbrev pub UncertaintyEstimator : Type 0 → Type 0
UncertaintyEstimator F = ErrorSamples F → Outcome (Uncertainty F)

pub record TrendPredictor (F : Type 0) : Type 0 where
  pub memory_threshold : F
  pub compute_threshold : F
  pub estimator : UncertaintyEstimator F

module _ {F : Type 0} where
  -- `records[len(records)-3]` and the two after it.
  abbrev pub last_three : List (Record F) → Outcome (Record F × Record F × Record F)
  last_three (a ∷ b ∷ c ∷ []) = ok (a, b, c)
  last_three (a ∷ b ∷ c ∷ d ∷ rest) = last_three (b ∷ c ∷ d ∷ rest)
  last_three _ = err index_out_of_range

-- `d.Seconds()`: whole seconds and the rest, both cut towards zero.
module _ {F : Type 0} ⦃fl : Float64 F⦄ where
  open fl use {of_uint, of_int, add, sub, mul, div, neg, lt, le}

  abbrev pub to_seconds : Duration → F
  to_seconds (pos n) =
      add (of_int (pos (n / 1_000_000_000)))
        (div (of_int (pos (n % 1_000_000_000))) (of_uint 1_000_000_000))
  to_seconds (negsuc n) =
      add (of_int (sub_ℕ 0 (suc n / 1_000_000_000)))
        (div (of_int (sub_ℕ 0 (suc n % 1_000_000_000))) (of_uint 1_000_000_000))

  unfoldable pub clamp : F → F → F → F
  clamp value minimum maximum =
      if lt value minimum then minimum else if lt maximum value then maximum else value

  unfoldable pub new_trend_predictor : TrendPredictor F
  new_trend_predictor = record {
    memory_threshold = default_memory_pressure_threshold;
    compute_threshold = default_compute_pressure_threshold;
    estimator = estimate;
  }

  -- The `Uncertainty{}` of a forecast that has none.
  abbrev pub no_uncertainty : Uncertainty F
  no_uncertainty = record {
    memory_error = of_uint 0;
    compute_error = of_uint 0;
    sample_count = pos 0;
  }

  -- One measure ahead of its three values: the last plus `(rate1 + rate2) / 2` for the horizon, each
  -- rate a difference over the seconds of its interval.
  abbrev pub ahead : Duration → Duration → Duration → F → F → F → F
  ahead horizon first_interval second_interval first second latest = add latest (
      mul
        (div
          (add (div (sub second first) (to_seconds first_interval))
            (div (sub latest second) (to_seconds second_interval)))
          (of_uint 2))
        (to_seconds horizon))

  -- `(delta1 + delta2) / 2`
  abbrev pub trend : F → F → F → F
  trend first second latest = div (add (sub second first) (sub latest second)) (of_uint 2)

  abbrev pub predicted : F → F
  predicted value = clamp value (of_uint 0) (of_uint 100)

  -- The `Forecast` that both forecasts return.
  abbrev pub forecast_of : TrendPredictor F → String → Duration → F → F → Forecast F
  forecast_of p worker_id horizon memory compute = record {
    worker_id = worker_id;
    horizon = horizon;
    predicted_memory_utilization = memory;
    predicted_compute_utilization = compute;
    predicted_contention = le p.memory_threshold memory || le p.compute_threshold compute;
    uncertainty = no_uncertainty;
  }

  -- `forecastAtHorizon` past its first three lines.
  unfoldable pub extrapolate :
      TrendPredictor F → Duration → Record F → Record F → Record F → Outcome (Forecast F)
  extrapolate p horizon first second latest =
      if le_int (time_sub second.timestamp first.timestamp) (pos 0)
        || le_int (time_sub latest.timestamp second.timestamp) (pos 0)
      then err invalid_telemetry_interval
      else ok (
          forecast_of p latest.worker_id horizon
            (predicted (
              ahead horizon first_interval second_interval first.memory_utilization
                second.memory_utilization latest.memory_utilization))
            (predicted (
              ahead horizon first_interval second_interval first.compute_utilization
                second.compute_utilization latest.compute_utilization)))
    where
      first_interval : Duration
      first_interval = time_sub second.timestamp first.timestamp

      second_interval : Duration
      second_interval = time_sub latest.timestamp second.timestamp

  unfoldable pub forecast_at_horizon :
      TrendPredictor F → List (Record F) → Duration → Outcome (Forecast F)
  forecast_at_horizon p records horizon =
      bind (last_three records) λ r. extrapolate p horizon r.0 r.1 r.2

  -- `forecastNext` past its first three lines. The horizon of its forecast is left at zero.
  unfoldable pub next_of : TrendPredictor F → Record F → Record F → Record F → Forecast F
  next_of p first second latest =
      forecast_of p latest.worker_id (pos 0)
        (predicted (
          add latest.memory_utilization
            (trend first.memory_utilization second.memory_utilization latest.memory_utilization)))
        (predicted (
          add latest.compute_utilization (
            trend first.compute_utilization second.compute_utilization latest.compute_utilization)))

  unfoldable pub forecast_next : TrendPredictor F → List (Record F) → Outcome (Forecast F)
  forecast_next p records = bind (last_three records) λ r. ok (next_of p r.0 r.1 r.2)

  abbrev pub no_samples : ErrorSamples F
  no_samples = record {
    actual_memory = [];
    predicted_memory = [];
    actual_compute = [];
    predicted_compute = [];
  }

  -- The four appends of the loop.
  abbrev pub append_sample : ErrorSamples F → Record F → Forecast F → ErrorSamples F
  append_sample s actual f = record {
    actual_memory = s.actual_memory ++ (actual.memory_utilization ∷ []);
    predicted_memory = s.predicted_memory ++ (f.predicted_memory_utilization ∷ []);
    actual_compute = s.actual_compute ++ (actual.compute_utilization ∷ []);
    predicted_compute = s.predicted_compute ++ (f.predicted_compute_utilization ∷ []);
  }

  -- The loop: `records[i-3 : i]` and `records[i]` are the head of what is left of the list, which
  -- loses one record in a round.
  unfoldable pub collect_samples :
      TrendPredictor F → List (Record F) → ErrorSamples F → Outcome (ErrorSamples F)
  collect_samples p (a ∷ b ∷ c ∷ actual ∷ rest) s =
      bind (forecast_next p (a ∷ b ∷ c ∷ []))
        λ f. collect_samples p (b ∷ c ∷ actual ∷ rest) (append_sample s actual f)
  collect_samples p _ s = ok s

  -- `if err != nil { return Uncertainty{} }`, which a panic passes by.
  abbrev pub or_no_uncertainty : Outcome (Uncertainty F) → Outcome (Uncertainty F)
  or_no_uncertainty (ok u) = ok u
  or_no_uncertainty (err index_out_of_range) = err index_out_of_range
  or_no_uncertainty (err _) = ok no_uncertainty

  unfoldable pub estimate_uncertainty : TrendPredictor F → List (Record F) → Outcome (Uncertainty F)
  estimate_uncertainty p records =
      if ltb (length records) 4
      then ok no_uncertainty
      else bind (collect_samples p records no_samples) λ s. or_no_uncertainty (p.estimator s)

  unfoldable pub forecast : TrendPredictor F → List (Record F) → Duration → Outcome (Forecast F)
  forecast p records horizon =
      if ltb (length records) 3
      then err insufficient_history
      else (bind (forecast_at_horizon p (take_last 3 records) horizon)
          λ f. bind (estimate_uncertainty p records) λ u. ok (record f { uncertainty = u }))
