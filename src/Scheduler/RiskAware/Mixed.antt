-- ===== src/Scheduler/RiskAware/Mixed.antt =====
-- internal/scheduler/risk_aware.go: the selection where some risks are known and some are not.
use aegis_llm_control_plane.Base.{◌≡◌, true, false, [], ◌∷◌, Option, ok, arith}
use aegis_llm_control_plane.Base.Float.{Float64}
use aegis_llm_control_plane.Cluster.Types.{Worker, Workload}
use aegis_llm_control_plane.Risk.{Evaluator}
use aegis_llm_control_plane.Scheduler.Score.{is_eligible}
use aegis_llm_control_plane.Scheduler.Select.{select_from}
use aegis_llm_control_plane.Scheduler.Predictive.{Outlook}
use aegis_llm_control_plane.Scheduler.RiskAware.{
  RiskAwareScoreBreakdown, prefer_risk_aware, explain_risk_aware_worker_score,
  select_worker_risk_aware,
}

module _ {F : Type 0} ⦃fl : Float64 F⦄ (outlook : Outlook F) (e : Option Evaluator)
    (k : Workload F) where
  abbrev explained : Worker F → RiskAwareScoreBreakdown F
  explained = explain_risk_aware_worker_score outlook e k

  -- If a worker whose risk is not known is listed between two others, all are eligible, and the
  -- scores rise along the list, the last is selected, whatever the risks of the first and the last.
  pub mixed_risk :
      (a b c : Worker F)
      → is_eligible k a ≡ true
      → is_eligible k b ≡ true
      → is_eligible k c ≡ true
      → (explained b).used_risk ≡ false
      → fl.lt (explained a).base.total (explained b).base.total ≡ true
      → fl.lt (explained b).base.total (explained c).base.total ≡ true
      → select_worker_risk_aware outlook e k (a ∷ b ∷ c ∷ []) ≡ ok c
  unfolding select_worker_risk_aware select_from prefer_risk_aware
  mixed_risk a b c ea eb ec ub ab bc = ground arith
