-- ===== src/Predictor/Trend/Laws.antt =====
-- internal/predictor/predictor.go: when a forecast is given, and what it then holds.
use aegis_llm_control_plane.Base.{
  ◌-◌, ◌≤◌, ◌≡◌, ◌⊎◌, inl, inr, refl, sym, ap, ◌∙◌, false, List, [], ok, err, arith, length, ltb,
  Bool-cases, All, ok_injective, String,
}
use aegis_llm_control_plane.Base.Int.{pos, Duration, le_int, time_sub}
use aegis_llm_control_plane.Base.Float.{Float64, IsIeee}
use aegis_llm_control_plane.Cluster.Validation.Range.{clamped_in_range}
use aegis_llm_control_plane.Errors.{Error, insufficient_history, invalid_telemetry_interval}
use aegis_llm_control_plane.Cluster.Validation.{out_of_range}
use aegis_llm_control_plane.Telemetry.Types.{Record}
use aegis_llm_control_plane.Telemetry.Pressure.{label_pressure}
use aegis_llm_control_plane.Predictor.Types.{Uncertainty, Forecast}
use aegis_llm_control_plane.Predictor.Trend.{
  TrendPredictor, new_trend_predictor, clamp, predicted, forecast_of, ahead, last_three,
  extrapolate, forecast_at_horizon, forecast,
}
use aegis_llm_control_plane.Predictor.Trend.Samples.{
  last_three-take_last, last_three_total, last_three-All, Rises, IsFailure,
  estimate_uncertainty_total,
}

module _ {F : Type 0} ⦃fl : Float64 F⦄ where
  abbrev memory_ahead : Duration → Record F → Record F → Record F → F
  memory_ahead horizon a b c =
      ahead horizon (time_sub b.timestamp a.timestamp) (time_sub c.timestamp b.timestamp)
        a.memory_utilization b.memory_utilization c.memory_utilization

  abbrev compute_ahead : Duration → Record F → Record F → Record F → F
  compute_ahead horizon a b c =
      ahead horizon (time_sub b.timestamp a.timestamp) (time_sub c.timestamp b.timestamp)
        a.compute_utilization b.compute_utilization c.compute_utilization

  extrapolate_ok :
      (p : TrendPredictor F) (horizon : Duration) (a b c : Record F)
      → Rises a b c
      → extrapolate p horizon a b c
        ≡ ok (
            forecast_of p c.worker_id horizon
              (predicted (memory_ahead horizon a b c))
              (predicted (compute_ahead horizon a b c)))
  unfolding extrapolate
  extrapolate_ok p horizon a b c r = rw (r.0, r.1)

  extrapolate_cases :
      (p : TrendPredictor F) (horizon : Duration) (a b c : Record F)
      → ((extrapolate p horizon a b c ≡ err invalid_telemetry_interval) × (Rises a b c → ⊥))
        ⊎ Rises a b c
  unfolding extrapolate
  extrapolate_cases p horizon a b c =
      elim (Bool-cases (le_int (time_sub b.timestamp a.timestamp) (pos 0))) [
        | inl t ↦ inl (rw t, λ r. cc (t, r.0))
        | inr t ↦ elim (Bool-cases (le_int (time_sub c.timestamp b.timestamp) (pos 0))) [
          | inl u ↦ inl (rw (t, u), λ r. cc (u, r.1))
          | inr u ↦ inr (t, u)
        ]
      ]

  predicted_in_range : IsIeee F → (x : F) → out_of_range (predicted x) ≡ false
  unfolding clamp
  predicted_in_range laws x = clamped_in_range laws x

  -- What the default predictor says from records that end in c.
  pub record IsForecast (rs : List (Record F)) (c : Record F) (horizon : Duration) (f : Forecast F)
      : Type 0 where
    pub worker : f.worker_id ≡ c.worker_id
    pub ahead : f.horizon ≡ horizon
    pub memory : out_of_range f.predicted_memory_utilization ≡ false
    pub compute : out_of_range f.predicted_compute_utilization ≡ false
    pub contention :
        f.predicted_contention
        ≡ (label_pressure (record c {
          memory_utilization = f.predicted_memory_utilization;
          compute_utilization = f.predicted_compute_utilization;
        })).contention
    pub samples : f.uncertainty.sample_count ≡ pos (length rs - 3)

  forecast_of-IsForecast :
      (laws : IsIeee F) (rs : List (Record F)) (c : Record F) (horizon : Duration) (m k : F)
      (u : Uncertainty F)
      → u.sample_count ≡ pos (length rs - 3)
      → IsForecast rs c horizon
          (record (forecast_of new_trend_predictor c.worker_id horizon
            (predicted m)
            (predicted k)) { uncertainty = u })
  unfolding new_trend_predictor label_pressure
  forecast_of-IsForecast laws rs c horizon m k u size = record {
    worker = refl;
    ahead = refl;
    memory = predicted_in_range laws m;
    compute = predicted_in_range laws k;
    contention = refl;
    samples = size;
  }

  -- From three records or more, of which the last three rise in time, the default predictor gives
  -- a forecast: for the worker of the last record, with utilizations that pass the store's range
  -- test, contention exactly where a record with these utilizations is labelled so, and an error
  -- estimated from one past forecast for each record after the third.
  pub forecast_succeeds :
      (laws : IsIeee F) (rs : List (Record F)) (horizon : Duration) (a b c : Record F)
      → 3 ≤ length rs
      → last_three rs ≡ ok (a, b, c)
      → Rises a b c
      → (f : Forecast F) × (forecast new_trend_predictor rs horizon ≡ ok f)
        × IsForecast rs c horizon f
  unfolding forecast forecast_at_horizon
  forecast_succeeds laws rs horizon a b c enough last rises =
      let few : ltb (length rs) 3 ≡ false = ground arith in
      let m = memory_ahead horizon a b c in
      let k = compute_ahead horizon a b c in
      let (u, eu, size) = estimate_uncertainty_total rs enough in
      (
        record (forecast_of new_trend_predictor c.worker_id horizon (predicted m) (predicted k)) {
          uncertainty = u;
        },
        rw (
          few,
          last_three-take_last rs enough,
          last,
          extrapolate_ok new_trend_predictor horizon a b c rises,
          eu,
        ),
        forecast_of-IsForecast laws rs c horizon m k u size,
      )

  -- The default predictor fails in two ways only: with fewer than three records, and with three
  -- last records that do not rise in time. No index is out of range.
  pub forecast_fails :
      (laws : IsIeee F) (rs : List (Record F)) (horizon : Duration) (e : Error)
      → forecast new_trend_predictor rs horizon ≡ err e
      → IsFailure rs e
  unfolding forecast forecast_at_horizon
  forecast_fails laws rs horizon e h = elim (Bool-cases (ltb (length rs) 3)) [
    | inl few ↦ inl (ground arith, ground arith)
    | inr many ↦
        let enough : 3 ≤ length rs = ground arith in
        let (a, b, c, last) = last_three_total rs enough in
        elim (extrapolate_cases new_trend_predictor horizon a b c) [
          | inl (bad, flat) ↦
              inr (a, b, c, last, (flat, cc (h, many, last_three-take_last rs enough, last, bad)))
          | inr rises ↦
              let (f, good, _) = forecast_succeeds laws rs horizon a b c enough last rises in
              cc (good, h)
        ]
  ]

  -- A forecast is named after the worker that all the records are of.
  pub forecast_worker_id :
      (laws : IsIeee F) (rs : List (Record F)) (horizon : Duration) (id : String) (f : Forecast F)
      → All (λ r. r.worker_id ≡ id) rs
      → forecast new_trend_predictor rs horizon ≡ ok f
      → f.worker_id ≡ id
  unfolding forecast forecast_at_horizon
  forecast_worker_id laws rs horizon id f h e = elim (Bool-cases (ltb (length rs) 3)) [
    | inl few ↦ absurd (cc (few, e))
    | inr many ↦
        let enough : 3 ≤ length rs = ground arith in
        let (a, b, c, last) = last_three_total rs enough in
        elim (extrapolate_cases new_trend_predictor horizon a b c) [
          | inl (bad, flat) ↦ absurd (cc (e, many, last_three-take_last rs enough, last, bad))
          | inr rises ↦
              let (g, good, is) = forecast_succeeds laws rs horizon a b c enough last rises in
              ap (λ x. x.worker_id) (ok_injective (sym e ∙ good))
              ∙ is.worker
              ∙ last_three-All (λ r. r.worker_id ≡ id) rs a b c h last
        ]
  ]

  pub forecast_few :
      (horizon : Duration)
      → forecast {F = F} new_trend_predictor [] horizon ≡ err insufficient_history
  unfolding forecast
  forecast_few horizon = refl
