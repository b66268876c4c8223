-- ===== src/Scheduler/RiskAware/Laws.antt =====
-- internal/scheduler/risk_aware.go: the selection where the risk of the workers is known.
use mathlib.Core.List.{Mem}
use aegis_llm_control_plane.Base.{
  ℕ, ◌≤◌, ◌≡◌, ◌↔◌, refl, true, false, List, [], ◌∷◌, Option, none, some, ok, err, All, arith,
  Bool-cases, if◌then◌else◌, inl, inr,
}
use aegis_llm_control_plane.Base.Float.{Float64, IsIeee, IsNumber, ◌≼◌}
use aegis_llm_control_plane.Base.FloatOrder.{lt_irrefl, lt_trans, lt_of_lt-le, lt_of_le-lt}
use aegis_llm_control_plane.Errors.{no_eligible_worker}
use aegis_llm_control_plane.Cluster.Types.{Worker, Workload}
use aegis_llm_control_plane.Predictor.Types.{Prediction}
use aegis_llm_control_plane.Risk.{Evaluator, level_for_score, evaluate}
use aegis_llm_control_plane.Scheduler.Score.{is_eligible}
use aegis_llm_control_plane.Scheduler.Select.Laws.{
  IsPreference, Unbeaten, picked_none, picked, run-Unbeaten,
}
use aegis_llm_control_plane.Scheduler.Predictive.{Outlook, usable_prediction}
use aegis_llm_control_plane.Scheduler.RiskAware.{
  RiskAwareScoreBreakdown, risk_level_rank, prefer_risk_aware, prefer_less_risk,
  explain_risk_aware_worker_score, assess, select_worker_risk_aware,
}

module _ {F : Type 0} ⦃fl : Float64 F⦄ where
  -- A risk-aware selection fails exactly when no worker is eligible, whatever the predictions.
  pub select_worker_risk_aware_none :
      (outlook : Outlook F) (e : Option Evaluator) (workload : Workload F)
      (workers : List (Worker F))
      → (select_worker_risk_aware outlook e workload workers ≡ err no_eligible_worker)
        ↔ All (λ w. is_eligible workload w ≡ false) workers
  unfolding select_worker_risk_aware
  select_worker_risk_aware_none outlook e workload workers =
      picked_none (is_eligible workload) (explain_risk_aware_worker_score outlook e workload)
        prefer_less_risk workers

  level_rank :
      (s : F)
      → risk_level_rank (level_for_score s) ≡ (
          if fl.le (fl.of_uint 85) s
          then 3
          else if fl.le (fl.of_uint 70) s
          then 2
          else if fl.le (fl.of_uint 50) s
          then 1
          else 0)
  unfolding level_for_score risk_level_rank
  level_rank s = elim (Bool-cases (fl.le (fl.of_uint 85) s)) [
    | inl t ↦ rw t
    | inr t ↦ rw t (elim (Bool-cases (fl.le (fl.of_uint 70) s)) [
      | inl u ↦ rw u
      | inr u ↦ rw u (elim (Bool-cases (fl.le (fl.of_uint 50) s)) [ inl v ↦ rw v | inr v ↦ rw v ])
    ])
  ]

  -- A breakdown that uses a risk has the level of its score.
  IsLevelled : RiskAwareScoreBreakdown F → Type 0
  IsLevelled b =
      b.used_risk ≡ true → b.placement_risk.level ≡ level_for_score b.placement_risk.score

  assess-IsLevelled :
      (e : Option Evaluator) (k : Workload F) (w : Worker F) (o : Option (Prediction F))
      → IsLevelled (assess e k w o)
  unfolding evaluate IsLevelled
  assess-IsLevelled none k w o h = cc
  assess-IsLevelled (some e) k w none h = cc
  assess-IsLevelled (some e) k w (some r) h = refl

  explain-IsLevelled :
      (outlook : Outlook F) (e : Option Evaluator) (k : Workload F) (w : Worker F)
      → IsLevelled (explain_risk_aware_worker_score outlook e k w)
  unfolding explain_risk_aware_worker_score
  explain-IsLevelled outlook e k w = assess-IsLevelled e k w (usable_prediction outlook w.id)

  module _ (laws : IsIeee F) where
    -- The ranks of the levels are ordered as the scores that they stand for.
    pub level_rank_mono :
        (s t : F)
        → s ≼ t
        → risk_level_rank (level_for_score s) ≤ risk_level_rank (level_for_score t)
    level_rank_mono s t h = ground (
      arith,
      level_rank s,
      level_rank t,
      laws.le_trans (fl.of_uint 85) s t,
      laws.le_trans (fl.of_uint 70) s t,
      laws.le_trans (fl.of_uint 50) s t,
    )

    abbrev rank : RiskAwareScoreBreakdown F → ℕ
    rank b = risk_level_rank b.placement_risk.level

    -- A breakdown with a risk, whose numbers are numbers.
    pub record IsRisked (p : Worker F × RiskAwareScoreBreakdown F) : Type 0 where
      pub used : p.1.used_risk ≡ true
      pub score_number : IsNumber p.1.placement_risk.score
      pub total_number : IsNumber p.1.base.total

    prefer_trans :
        (p q r : Worker F × RiskAwareScoreBreakdown F)
        → IsRisked p
        → IsRisked q
        → IsRisked r
        → prefer_less_risk p q ≡ true
        → prefer_less_risk q r ≡ true
        → prefer_less_risk p r ≡ true
    unfolding prefer_risk_aware
    prefer_trans p q r fp fq fr h k =
        let sp = p.1.placement_risk.score in
        let sq = q.1.placement_risk.score in
        let sr = r.1.placement_risk.score in
        ground (
          arith,
          lt_trans laws sp sq sr,
          lt_trans laws r.1.base.total q.1.base.total p.1.base.total,
          laws.eq_iff sp sq,
          laws.eq_iff sq sr,
          laws.eq_iff sp sr,
          lt_of_lt-le laws sp sq sr,
          lt_of_le-lt laws sp sq sr,
          laws.le_trans sp sq sr,
          laws.le_trans sr sq sp,
          laws.lt_iff sp sr,
        )

    prefer_less_risk-IsPreference :
        (outlook : Outlook F) (e : Option Evaluator) (workload : Workload F)
        → IsPreference
            (is_eligible workload)
            (explain_risk_aware_worker_score outlook e workload)
            prefer_less_risk
            IsRisked
    unfolding prefer_risk_aware
    prefer_less_risk-IsPreference outlook e workload = record {
      irrefl = λ p f.
          ground (arith, lt_irrefl laws p.1.base.total, lt_irrefl laws p.1.placement_risk.score);
      trans = prefer_trans;
    }

    less_risk :
        (p q : Worker F × RiskAwareScoreBreakdown F)
        → IsRisked p
        → IsRisked q
        → IsLevelled p.1
        → IsLevelled q.1
        → prefer_less_risk p q ≡ false
        → q.1.placement_risk.score ≼ p.1.placement_risk.score
    unfolding prefer_risk_aware IsLevelled
    less_risk p q fp fq lp lq h =
        let sp = p.1.placement_risk.score in
        let sq = q.1.placement_risk.score in
        ground (
          arith,
          lp fp.used,
          lq fq.used,
          level_rank_mono sp sq,
          laws.eq_iff sp sq,
          laws.lt_iff sp sq,
          laws.le_total sp sq,
        )

    module _ (outlook : Outlook F) (e : Option Evaluator) (workload : Workload F) where
      abbrev pub explained : Worker F → RiskAwareScoreBreakdown F
      explained = explain_risk_aware_worker_score outlook e workload

      -- Every eligible worker has a fresh forecast, and its risk and its score are numbers.
      abbrev pub AllRisked : List (Worker F) → Type 0
      AllRisked = All (λ w. is_eligible workload w ≡ true → IsRisked (w, explained w))

      abbrev pub LeastRisk : Worker F → List (Worker F) → Type 0
      LeastRisk w = All (λ x.
          is_eligible workload x ≡ true
          → (explained w).placement_risk.score ≼ (explained x).placement_risk.score)

      weigh :
          (w : Worker F) (xs : List (Worker F))
          → AllRisked xs
          → IsRisked (w, explained w)
          → Unbeaten (is_eligible workload) explained prefer_less_risk xs (w, explained w)
          → LeastRisk w xs
      weigh w [] all r best = tt
      weigh w (x ∷ xs) (a, all) r (b, best) = (
        λ el.
            less_risk (x, explained x) (w, explained w) (a el) r
              (explain-IsLevelled outlook e workload x) (explain-IsLevelled outlook e workload w)
              (b el),
        weigh w xs all r best,
      )

      -- If every eligible worker's explanation used a forecast, and its risk score and its baseline
      -- total are numbers, the worker selected is one of the list, is eligible, and no eligible one
      -- has a lower placement risk.
      pub select_worker_risk_aware_least :
          (workers : List (Worker F)) (w : Worker F)
          → AllRisked workers
          → select_worker_risk_aware outlook e workload workers ≡ ok w
          → Mem w workers × (is_eligible workload w ≡ true) × LeastRisk w workers
      unfolding select_worker_risk_aware
      select_worker_risk_aware_least workers w all h =
          let (r, el, m) = picked (is_eligible workload) explained prefer_less_risk w workers h in
          let (n, best) =
            run-Unbeaten (is_eligible workload) explained prefer_less_risk IsRisked
              (prefer_less_risk-IsPreference outlook e workload) (w, explained w) workers all r in
          (m, el, weigh w workers all n best)
