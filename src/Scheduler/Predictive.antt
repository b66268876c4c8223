-- ===== src/Scheduler/Predictive.antt =====
-- internal/scheduler/predictive.go: selection by the score less what the forecast predicts.
pub mod Laws
use aegis_llm_control_plane.Base.{
  String, Bool, true, false, List, Option, none, some, if◌then◌else◌,
}
use aegis_llm_control_plane.Base.Int.{Time, seconds, time_sub, lt_int}
use aegis_llm_control_plane.Base.Float.{Float64}
use aegis_llm_control_plane.Errors.{Outcome}
use aegis_llm_control_plane.Cluster.Types.{Worker, Workload}
use aegis_llm_control_plane.Predictor.Types.{Prediction}
use aegis_llm_control_plane.Scheduler.Score.{
  WorkerScoreBreakdown, is_eligible, explain_worker_score,
}
use aegis_llm_control_plane.Scheduler.Select.{select_from, or_no_worker}

-- `PredictionProvider`, its `Get` at the time of a decision.
abbrev pub PredictionProvider : Type 0 → Type 0
PredictionProvider F = String → Option (Prediction F)

-- What a decision sees besides the cluster: the provider, `none` for nil, and the clock.
pub record Outlook (F : Type 0) : Type 0 where
  pub predictions : Option (PredictionProvider F)
  pub now : Time

-- `time.Since(result.GeneratedAt) > 15*time.Second`
abbrev pub is_stale : {F : Type 0} → Time → Prediction F → Bool
is_stale now result = lt_int (seconds 15) (time_sub now result.generated_at)

-- The prediction that a decision about a worker uses: there is a provider, it has one, and it is
-- fresh. The predictive and the risk-aware explanation begin with these three tests.
module _ {F : Type 0} where
  abbrev if_fresh : Time → Option (Prediction F) → Option (Prediction F)
  if_fresh now none = none
  if_fresh now (some result) = if is_stale now result then none else some result

  abbrev pub ask : Option (PredictionProvider F) → String → Option (Prediction F)
  ask none id = none
  ask (some get) id = get id

  unfoldable pub usable_prediction : Outlook F → String → Option (Prediction F)
  usable_prediction outlook id = if_fresh outlook.now (ask outlook.predictions id)

pub record PredictiveScoreBreakdown (F : Type 0) : Type 0 where
  pub base : WorkerScoreBreakdown F
  pub predicted_memory_penalty : F
  pub predicted_compute_penalty : F
  pub predicted_contention_penalty : F
  pub used_prediction : Bool
  pub total : F

module _ {F : Type 0} ⦃fl : Float64 F⦄ where
  open fl use {of_uint, sub, mul, lt}

  -- The breakdown with, and without, a prediction. The weights of both penalties are 1.
  abbrev pub explain_with :
      WorkerScoreBreakdown F → Option (Prediction F) → PredictiveScoreBreakdown F
  explain_with base none = record {
    base = base;
    predicted_memory_penalty = of_uint 0;
    predicted_compute_penalty = of_uint 0;
    predicted_contention_penalty = of_uint 0;
    used_prediction = false;
    total = base.total;
  }
  explain_with base (some result) = record {
    base = base;
    predicted_memory_penalty = memory;
    predicted_compute_penalty = compute;
    predicted_contention_penalty = contention;
    used_prediction = true;
    total = sub (sub (sub base.total memory) compute) contention;
  }
    where
      memory : F
      memory = mul result.forecast.predicted_memory_utilization (of_uint 1)

      compute : F
      compute = mul result.forecast.predicted_compute_utilization (of_uint 1)

      contention : F
      contention = if result.forecast.predicted_contention then of_uint 100 else of_uint 0

  unfoldable pub explain_predictive_worker_score :
      Outlook F → Workload F → Worker F → PredictiveScoreBreakdown F
  explain_predictive_worker_score outlook workload worker =
      explain_with (explain_worker_score workload worker) (usable_prediction outlook worker.id)

  abbrev pub predictive_total : Outlook F → Workload F → Worker F → F
  predictive_total outlook workload worker =
      (explain_predictive_worker_score outlook workload worker).total

  -- The first of the highest scores is kept.
  abbrev pub prefer_higher : Worker F × F → Worker F × F → Bool
  prefer_higher (worker, score) (selected, selected_score) = lt selected_score score

  unfoldable pub select_worker_predictive :
      Outlook F → Workload F → List (Worker F) → Outcome (Worker F)
  select_worker_predictive outlook workload workers = or_no_worker (
      select_from (is_eligible workload) (predictive_total outlook workload) prefer_higher none
        workers)
