-- ===== src/Scheduler/RiskAware/Fresh.antt =====
-- internal/scheduler: predictive.go and risk_aware.go, and forecasts that have become old.
use aegis_llm_control_plane.Base.{◌≡◌, String, List, Option, none, some, arith, if◌then◌else◌}
use aegis_llm_control_plane.Base.Int.{Time, seconds, time_sub, le_int}
use aegis_llm_control_plane.Base.Float.{Float64}
use aegis_llm_control_plane.Cluster.Types.{Worker, Workload}
use aegis_llm_control_plane.Predictor.Types.{Prediction}
use aegis_llm_control_plane.Risk.{Evaluator}
use aegis_llm_control_plane.Scheduler.Score.{is_eligible, explain_worker_score}
use aegis_llm_control_plane.Scheduler.Select.{select_from, or_no_worker}
use aegis_llm_control_plane.Scheduler.Predictive.{
  Outlook, PredictionProvider, usable_prediction, explain_with, explain_predictive_worker_score,
  prefer_higher, select_worker_predictive,
}
use aegis_llm_control_plane.Scheduler.RiskAware.{
  assess, explain_risk_aware_worker_score, prefer_less_risk, select_worker_risk_aware,
}

module _ {F : Type 0} where
  -- The forecast, if it is at most 15 seconds old.
  abbrev young : Time → Option (Prediction F) → Option (Prediction F)
  young now none = none
  young now (some r) = if le_int (time_sub now r.generated_at) (seconds 15) then some r else none

  -- A provider that has lost every forecast older than 15 seconds.
  abbrev pub fresh_only : Time → PredictionProvider F → PredictionProvider F
  fresh_only now get id = young now (get id)

  abbrev pub outlook_of : PredictionProvider F → Time → Outlook F
  outlook_of get now = record { predictions = some get; now = now }

  usable_prediction-fresh_only :
      (get : PredictionProvider F) (now : Time) (id : String)
      → usable_prediction (outlook_of get now) id
        ≡ usable_prediction (outlook_of (fresh_only now get) now) id
  unfolding usable_prediction
  usable_prediction-fresh_only get now id = ground arith

module _ {F : Type 0} ⦃fl : Float64 F⦄ where
  -- Forecasts that are more than 15 seconds old at the decision have no influence: the predictive
  -- and the risk-aware selection have the same result as with a provider that does not have them.
  pub select_worker-fresh_only :
      (get : PredictionProvider F) (now : Time) (evaluator : Option Evaluator)
      (workload : Workload F) (workers : List (Worker F))
      → let all = outlook_of get now in
        let fresh = outlook_of (fresh_only now get) now in
        (select_worker_predictive all workload workers
          ≡ select_worker_predictive fresh workload workers)
        × (select_worker_risk_aware all evaluator workload workers
            ≡ select_worker_risk_aware fresh evaluator workload workers)
  unfolding select_worker_predictive explain_predictive_worker_score select_worker_risk_aware
      explain_risk_aware_worker_score
  select_worker-fresh_only get now evaluator workload workers = (
    λ i. or_no_worker (
        select_from (is_eligible workload)
          (λ w.
            (explain_with (explain_worker_score workload w)
              (usable_prediction-fresh_only get now w.id i)).total)
          prefer_higher none workers),
    λ i. or_no_worker (
        select_from (is_eligible workload)
          (λ w. assess evaluator workload w (usable_prediction-fresh_only get now w.id i))
          prefer_less_risk none workers),
  )
