-- ===== src/Scheduler/Examples/Risky.antt =====
-- The theorems on the placement risk and on risk-aware selection at examples.
use mathlib.Core.List.{Mem}
use aegis_llm_control_plane.Base.{
  ℕ, ◌≡◌, refl, ◌⊎◌, ◌==◌, if◌then◌else◌, true, [], ◌∷◌, none, some, ok, All,
}
use aegis_llm_control_plane.Base.Int.{◌+ℤ◌, ◌-ℤ◌, ◌*ℤ◌, seconds, time_sub}
use aegis_llm_control_plane.Base.Float.{Whole, whole_float, Whole-IsIeee, IsNumber, ◌≼◌}
use aegis_llm_control_plane.Cluster.Types.{Worker}
use aegis_llm_control_plane.Cluster.Topology.{matches_topology_requirement}
use aegis_llm_control_plane.Cluster.Examples.{example_worker, worker_a, workload_j}
use aegis_llm_control_plane.Risk.{
  evaluate, clamp, calculate_memory_pressure, calculate_compute_pressure, combine_pressure,
  level_for_score, projected_memory, projected_compute,
}
use aegis_llm_control_plane.Risk.Laws.{InRange, evaluate_score, evaluate_uncertainty}
use aegis_llm_control_plane.Scheduler.Score.{is_eligible, explain_worker_score}
use aegis_llm_control_plane.Scheduler.Select.{select_from}
use aegis_llm_control_plane.Scheduler.Predictive.{
  Outlook, usable_prediction, select_worker_predictive,
}
use aegis_llm_control_plane.Scheduler.RiskAware.{
  explain_risk_aware_worker_score, prefer_risk_aware, risk_level_rank, select_worker_risk_aware,
}
use aegis_llm_control_plane.Scheduler.RiskAware.Laws.{
  explained, LeastRisk, IsRisked, select_worker_risk_aware_least,
}
use aegis_llm_control_plane.Scheduler.RiskAware.Mixed.{mixed_risk}
use aegis_llm_control_plane.Scheduler.RiskAware.Fresh.{
  fresh_only, outlook_of, select_worker-fresh_only,
}
use aegis_llm_control_plane.Scheduler.Examples.{worker_c, forecast_of, outlook_at, three}

memory-IsNumber : IsNumber (projected_memory workload_j worker_a (forecast_of "a" 30 5))
unfolding ◌+ℤ◌ ◌*ℤ◌
memory-IsNumber = refl

memory-IsNumber_more : IsNumber (projected_memory workload_j worker_a (forecast_of "a" 30 9))
unfolding ◌+ℤ◌ ◌*ℤ◌
memory-IsNumber_more = refl

compute-IsNumber : (error : ℕ) → IsNumber (projected_compute (forecast_of "a" 30 error))
unfolding ◌+ℤ◌
compute-IsNumber error = refl

evaluate_score_example :
    let risk =
      evaluate tt
        (record { workload = workload_j; worker = worker_a; forecast = forecast_of "a" 30 5 }) in
    let parts = risk.breakdown in
    InRange Whole-IsIeee parts.memory_pressure
    × InRange Whole-IsIeee parts.compute_pressure
    × InRange Whole-IsIeee risk.score
    × (parts.memory_pressure ≼ risk.score)
    × (parts.compute_pressure ≼ risk.score)
    × ((risk.score ≡ parts.memory_pressure) ⊎ (risk.score ≡ parts.compute_pressure))
    × (risk.level ≡ level_for_score risk.score)
evaluate_score_example =
    evaluate_score Whole-IsIeee tt
      (record { workload = workload_j; worker = worker_a; forecast = forecast_of "a" 30 5 })
      memory-IsNumber (compute-IsNumber 5)

evaluate_uncertainty_example :
    (evaluate tt
      (record { workload = workload_j; worker = worker_a; forecast = forecast_of "a" 30 5 })).score
    ≼ (evaluate tt (record {
      workload = workload_j;
      worker = worker_a;
      forecast = forecast_of "a" 30 9;
    })).score
evaluate_uncertainty_example =
    evaluate_uncertainty Whole-IsIeee tt workload_j worker_a (forecast_of "a" 30 5)
      (forecast_of "a" 30 9) refl refl refl refl memory-IsNumber memory-IsNumber_more
      (compute-IsNumber 5) (compute-IsNumber 9)

All-IsRisked :
    All
      (λ w.
        is_eligible workload_j w ≡ true
        → IsRisked Whole-IsIeee (w, explained Whole-IsIeee (outlook_at 110) (some tt) workload_j w))
      three
unfolding explain_risk_aware_worker_score usable_prediction evaluate calculate_memory_pressure
    calculate_compute_pressure combine_pressure clamp explain_worker_score time_sub ◌+ℤ◌ ◌-ℤ◌ ◌*ℤ◌
All-IsRisked = (
  λ e. record { used = refl; score_number = refl; total_number = refl },
  (
    λ e. record { used = refl; score_number = refl; total_number = refl },
    (λ e. record { used = refl; score_number = refl; total_number = refl }, tt),
  ),
)

three_by_risk : select_worker_risk_aware (outlook_at 110) (some tt) workload_j three ≡ ok worker_c
unfolding select_worker_risk_aware select_from is_eligible prefer_risk_aware
    explain_risk_aware_worker_score usable_prediction evaluate calculate_memory_pressure
    calculate_compute_pressure combine_pressure level_for_score risk_level_rank clamp
    explain_worker_score time_sub ◌+ℤ◌ ◌-ℤ◌ ◌*ℤ◌ matches_topology_requirement
three_by_risk = refl

select_worker_risk_aware_least_example :
    Mem worker_c three
    × (is_eligible workload_j worker_c ≡ true)
    × LeastRisk Whole-IsIeee (outlook_at 110) (some tt) workload_j worker_c three
select_worker_risk_aware_least_example =
    select_worker_risk_aware_least Whole-IsIeee (outlook_at 110) (some tt) workload_j three worker_c
      All-IsRisked three_by_risk

-- The forecast of the middle worker is missing; the first has the lower risk, the last is selected.
abbrev partial_outlook : Outlook Whole
partial_outlook = record {
  predictions =
      some
        (λ id. if id == "b" then none else some (forecast_of id (if id == "a" then 0 else 90) 0));
  now = seconds 110;
}

abbrev first_worker : Worker Whole
first_worker = example_worker "a" 100000 80000

abbrev middle_worker : Worker Whole
middle_worker = example_worker "b" 100000 90000

abbrev last_worker : Worker Whole
last_worker = example_worker "c" 100000 95000

mixed_risk_example :
    select_worker_risk_aware partial_outlook
      (some tt)
      workload_j
      (first_worker ∷ middle_worker ∷ last_worker ∷ [])
    ≡ ok last_worker
unfolding is_eligible matches_topology_requirement explain_risk_aware_worker_score usable_prediction
    explain_worker_score time_sub ◌+ℤ◌ ◌-ℤ◌ ◌*ℤ◌
mixed_risk_example =
    mixed_risk partial_outlook (some tt) workload_j first_worker middle_worker last_worker refl refl
      refl refl refl refl

select_worker-fresh_only_example :
    let all = outlook_of (λ id. some (forecast_of id 30 5)) (seconds 200) in
    let fresh =
      outlook_of (fresh_only (seconds 200) (λ id. some (forecast_of id 30 5))) (seconds 200) in
    (select_worker_predictive all workload_j three
      ≡ select_worker_predictive fresh workload_j three)
    × (select_worker_risk_aware all (some tt) workload_j three
        ≡ select_worker_risk_aware fresh (some tt) workload_j three)
select_worker-fresh_only_example =
    select_worker-fresh_only (λ id. some (forecast_of id 30 5)) (seconds 200) (some tt) workload_j
      three
