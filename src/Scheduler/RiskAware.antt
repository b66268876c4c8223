-- ===== src/Scheduler/RiskAware.antt =====
-- internal/scheduler/risk_aware.go: selection by the placement risk, and by the score where the
-- risk is not known or does not tell.
pub mod Laws
pub mod Mixed
pub mod Fresh
use aegis_llm_control_plane.Base.{
  ℕ, String, Bool, true, false, not, ◌&&◌, ◌==◌, List, Option, none, some, ltb, eqb, if◌then◌else◌,
}
use aegis_llm_control_plane.Base.Int.{pos}
use aegis_llm_control_plane.Base.Float.{Float64}
use aegis_llm_control_plane.Errors.{Outcome}
use aegis_llm_control_plane.Cluster.Types.{Worker, Workload}
use aegis_llm_control_plane.Predictor.Types.{Prediction}
use aegis_llm_control_plane.Risk.{
  Level, level_low, level_moderate, level_high, level_critical, PlacementRisk, Evaluator, evaluate,
}
use aegis_llm_control_plane.Scheduler.Score.{
  WorkerScoreBreakdown, is_eligible, explain_worker_score,
}
use aegis_llm_control_plane.Scheduler.Select.{select_from, or_no_worker}
use aegis_llm_control_plane.Scheduler.Predictive.{Outlook, usable_prediction}

pub record RiskAwareScoreBreakdown (F : Type 0) : Type 0 where
  pub base : WorkerScoreBreakdown F
  pub placement_risk : PlacementRisk F
  pub used_risk : Bool

unfoldable pub risk_level_rank : Level → ℕ
risk_level_rank level =
    if level == level_low
    then 0
    else if level == level_moderate
    then 1
    else if level == level_high
    then 2
    else if level == level_critical
    then 3
    else 4

module _ {F : Type 0} ⦃fl : Float64 F⦄ where
  open fl use {of_uint, lt, eq}

  -- The zero value of `risk.PlacementRisk`.
  abbrev no_risk : PlacementRisk F
  no_risk = record {
    worker_id = "";
    workload_id = "";
    score = of_uint 0;
    level = "";
    breakdown = record {
      memory_pressure = of_uint 0;
      compute_pressure = of_uint 0;
      forecast_uncertainty = of_uint 0;
      workload_demand = of_uint 0;
    };
  }

  abbrev pub assess :
      Option Evaluator → Workload F → Worker F → Option (Prediction F) → RiskAwareScoreBreakdown F
  assess (some evaluator) workload worker (some result) = record {
    base = explain_worker_score workload worker;
    placement_risk =
        evaluate evaluator (record { workload = workload; worker = worker; forecast = result });
    used_risk = true;
  }
  assess _ workload worker _ = record {
    base = explain_worker_score workload worker;
    placement_risk = no_risk;
    used_risk = false;
  }

  unfoldable pub explain_risk_aware_worker_score :
      Outlook F → Option Evaluator → Workload F → Worker F → RiskAwareScoreBreakdown F
  explain_risk_aware_worker_score outlook evaluator workload worker =
      assess evaluator workload worker (usable_prediction outlook worker.id)

  unfoldable pub prefer_risk_aware : RiskAwareScoreBreakdown F → RiskAwareScoreBreakdown F → Bool
  prefer_risk_aware candidate current =
      if candidate.used_risk && current.used_risk
      then (if not (eqb candidate_level current_level)
          then ltb candidate_level current_level
          else if not (eq candidate.placement_risk.score current.placement_risk.score)
          then lt candidate.placement_risk.score current.placement_risk.score
          else lt current.base.total candidate.base.total)
      else lt current.base.total candidate.base.total
    where
      candidate_level : ℕ
      candidate_level = risk_level_rank candidate.placement_risk.level

      current_level : ℕ
      current_level = risk_level_rank current.placement_risk.level

  abbrev pub prefer_less_risk :
      Worker F × RiskAwareScoreBreakdown F → Worker F × RiskAwareScoreBreakdown F → Bool
  prefer_less_risk (worker, breakdown) (selected, selected_breakdown) =
      prefer_risk_aware breakdown selected_breakdown

  unfoldable pub select_worker_risk_aware :
      Outlook F → Option Evaluator → Workload F → List (Worker F) → Outcome (Worker F)
  select_worker_risk_aware outlook evaluator workload workers = or_no_worker (
      select_from (is_eligible workload)
        (explain_risk_aware_worker_score outlook evaluator workload) prefer_less_risk none workers)
