-- ===== src/Scheduler/Examples.antt =====
-- The theorems on selection at example clusters.
pub mod Risky
pub mod Passes
use mathlib.Core.List.{Mem, Perm}
use mathlib.Core.List.Perm
use text.Mathlib.TextEquality.{IsScalar-prop}
use aegis_llm_control_plane.Base.{
  ℕ, ◌+◌, ◌≤◌, ◌≡◌, ◌≢◌, ◌↔◌, refl, All_of_mem, String, Bool, true, false, List, [], ◌∷◌, Option,
  none, some, arith, ok, err, All, text_lt,
}
use aegis_llm_control_plane.Base.Dict.{lookup, insert, values}
use aegis_llm_control_plane.Base.Int.{ℤ, pos, ◌+ℤ◌, ◌-ℤ◌, ◌*ℤ◌, ◌≤ℤ◌, seconds, time_sub}
use aegis_llm_control_plane.Base.Float.{Whole, whole_float, Whole-IsIeee, IsNumber, ◌≼◌}
use aegis_llm_control_plane.Errors.{Error, no_eligible_worker}
use aegis_llm_control_plane.Cluster.Types.{
  Worker, Workload, priority_batch, priority_critical, worker_draining,
}
use aegis_llm_control_plane.Cluster.Topology.{matches_topology_requirement}
use aegis_llm_control_plane.Cluster.Validation.{
  validate_worker, validate_workload, validate_demand, validate_lifecycle,
}
use aegis_llm_control_plane.Cluster.Store.{
  Store, place, register_worker, create_workload, commit_placement, snapshot,
}
use aegis_llm_control_plane.Cluster.Store.Commit.{IsCommittable, committed}
use aegis_llm_control_plane.Cluster.Store.Accounting.Traces.{IsSound}
use aegis_llm_control_plane.Cluster.Examples.{
  example_worker, example_workload, example_store, example-IsSound, worker_a, workload_j, j_to_a,
}
use aegis_llm_control_plane.Shared.{Sys, call}
use aegis_llm_control_plane.Predictor.Types.{Prediction}
use aegis_llm_control_plane.Risk.{
  evaluate, clamp, calculate_memory_pressure, calculate_compute_pressure,
  calculate_forecast_uncertainty, combine_pressure, level_for_score, projected_memory,
  projected_compute,
}
use aegis_llm_control_plane.Risk.Laws.{InRange, evaluate_score, evaluate_uncertainty}
use aegis_llm_control_plane.Scheduler.Score.{is_eligible, explain_worker_score, score_worker}
use aegis_llm_control_plane.Scheduler.Select.{select_worker, select_from}
use aegis_llm_control_plane.Scheduler.Select.Baseline.{select_worker_none, Best, select_worker-Best}
use aegis_llm_control_plane.Scheduler.Select.Order.{select_worker_order}
use aegis_llm_control_plane.Scheduler.Predictive.{
  Outlook, ask, usable_prediction, explain_predictive_worker_score, predictive_total,
  select_worker_predictive,
}
use aegis_llm_control_plane.Scheduler.Predictive.Laws.{
  select_worker_predictive_none, predictive_total_fallback, Highest, select_worker_predictive_best,
  stale_tie_differs,
}
use aegis_llm_control_plane.Scheduler.RiskAware.{
  explain_risk_aware_worker_score, prefer_risk_aware, risk_level_rank, select_worker_risk_aware,
}
use aegis_llm_control_plane.Scheduler.RiskAware.Laws.{
  select_worker_risk_aware_none, level_rank_mono, explained, LeastRisk, IsRisked,
  select_worker_risk_aware_least,
}
use aegis_llm_control_plane.Scheduler.RiskAware.Mixed.{mixed_risk}
use aegis_llm_control_plane.Scheduler.Queue.{
  goes_first, effective_priority_weight, priority_weight, order_workloads_with_aging, insert_stable,
  sort_stable,
}
use aegis_llm_control_plane.Scheduler.Queue.Aging.{aging_overtakes}
use aegis_llm_control_plane.Scheduler.Placement.{
  place_with, decision, PlacementDecision, schedulable_workload,
}
use aegis_llm_control_plane.Scheduler.Placement.Laws.{
  IsPlacement, place_with_ok, place_with_succeeds,
}
use aegis_llm_control_plane.Scheduler.Service.{new_service, schedule_pending}

-- Two workers with the same score, and one that is larger.
abbrev worker_b : Worker Whole
worker_b = example_worker "b" 100 90

abbrev worker_c : Worker Whole
worker_c = example_worker "c" 10000 9000

abbrev draining : Worker Whole
draining = record worker_a { state = worker_draining }

abbrev forecast_of : String → ℕ → ℕ → Prediction Whole
forecast_of id memory error = record {
  forecast = record {
    worker_id = id;
    horizon = seconds 10;
    predicted_memory_utilization = some (pos memory);
    predicted_compute_utilization = some (pos 1);
    predicted_contention = false;
    uncertainty = record {
      memory_error = some (pos error);
      compute_error = some (pos 0);
      sample_count = pos 1;
    };
  };
  generated_at = seconds 100;
}

abbrev outlook_at : ℕ → Outlook Whole
outlook_at n = record { predictions = some (λ id. some (forecast_of id 30 5)); now = seconds n }

no_worker : select_worker workload_j (draining ∷ []) ≡ err no_eligible_worker
unfolding select_worker select_from is_eligible
no_worker = refl

-- selection without forecasts

abbrev three : List (Worker Whole)
three = worker_a ∷ worker_c ∷ worker_b ∷ []

three_numeric :
    All (λ w. is_eligible workload_j w ≡ true → IsNumber (score_worker workload_j w)) three
unfolding score_worker explain_worker_score ◌+ℤ◌ ◌-ℤ◌ ◌*ℤ◌
three_numeric = (λ e. refl, (λ e. refl, (λ e. refl, tt)))

three_selects : select_worker workload_j three ≡ ok worker_c
unfolding select_worker select_from is_eligible score_worker explain_worker_score ◌+ℤ◌ ◌-ℤ◌ ◌*ℤ◌
    matches_topology_requirement
three_selects = refl

select_worker-Best_example :
    Mem worker_c three
    × (is_eligible workload_j worker_c ≡ true)
    × Best Whole-IsIeee workload_j worker_c three
select_worker-Best_example =
    select_worker-Best Whole-IsIeee workload_j three worker_c three_numeric three_selects

Worker-IsSet : IsSet (Worker Whole)
Worker-IsSet = hlevel (IsScalar-prop)

abbrev two : List (Worker Whole)
two = worker_a ∷ worker_b ∷ []

two_distinct : (v w : Worker Whole) → Mem v two → Mem w two → v.id ≡ w.id → v ≡ w
two_distinct v w mv mw =
    All_of_mem (λ x. x.id ≡ w.id → x ≡ w) (λ x. hlevel (Worker-IsSet)) v two
      (
        All_of_mem (λ y. worker_a.id ≡ y.id → worker_a ≡ y) (λ y. hlevel (Worker-IsSet)) w two
            ((λ e. refl), (cc, tt)) mw,
        (
          All_of_mem (λ y. worker_b.id ≡ y.id → worker_b ≡ y) (λ y. hlevel (Worker-IsSet)) w two
              (cc, ((λ e. refl), tt)) mw,
          tt,
        ),
      )
      mv

two_numeric : All (λ w. is_eligible workload_j w ≡ true → IsNumber (score_worker workload_j w)) two
unfolding score_worker explain_worker_score ◌+ℤ◌ ◌-ℤ◌ ◌*ℤ◌
two_numeric = (λ e. refl, (λ e. refl, tt))

two_numeric_back :
    All
      (λ w. is_eligible workload_j w ≡ true → IsNumber (score_worker workload_j w))
      (worker_b ∷ worker_a ∷ [])
unfolding score_worker explain_worker_score ◌+ℤ◌ ◌-ℤ◌ ◌*ℤ◌
two_numeric_back = (λ e. refl, (λ e. refl, tt))

select_worker_order_example :
    select_worker workload_j two ≡ select_worker workload_j (worker_b ∷ worker_a ∷ [])
select_worker_order_example =
    select_worker_order Whole-IsIeee workload_j two (worker_b ∷ worker_a ∷ [])
      (Perm.swap worker_b worker_a []) two_numeric two_numeric_back two_distinct

-- selection with forecasts

a_stale : usable_prediction (outlook_at 200) "a" ≡ none
unfolding usable_prediction time_sub ◌-ℤ◌
a_stale = refl

b_stale : usable_prediction (outlook_at 200) "b" ≡ none
unfolding usable_prediction time_sub ◌-ℤ◌
b_stale = refl

totals_numeric :
    All
      (λ w.
        is_eligible workload_j w ≡ true → IsNumber (predictive_total (outlook_at 110) workload_j w))
      three
unfolding explain_predictive_worker_score usable_prediction explain_worker_score time_sub ◌+ℤ◌ ◌-ℤ◌
    ◌*ℤ◌
totals_numeric = (λ e. refl, (λ e. refl, (λ e. refl, tt)))

three_predicted : select_worker_predictive (outlook_at 110) workload_j three ≡ ok worker_c
unfolding select_worker_predictive select_from is_eligible explain_predictive_worker_score
    usable_prediction explain_worker_score time_sub ◌+ℤ◌ ◌-ℤ◌ ◌*ℤ◌ matches_topology_requirement
three_predicted = refl

select_worker_predictive_best_example :
    Mem worker_c three
    × (is_eligible workload_j worker_c ≡ true)
    × Highest Whole-IsIeee (outlook_at 110) workload_j worker_c three
select_worker_predictive_best_example =
    select_worker_predictive_best Whole-IsIeee (outlook_at 110) workload_j three worker_c
      totals_numeric three_predicted

a_eligible : is_eligible workload_j worker_a ≡ true
unfolding is_eligible matches_topology_requirement
a_eligible = refl

b_eligible : is_eligible workload_j worker_b ≡ true
unfolding is_eligible matches_topology_requirement
b_eligible = refl

c_eligible : is_eligible workload_j worker_c ≡ true
unfolding is_eligible matches_topology_requirement
c_eligible = refl

a_ties_b :
    whole_float.eq (score_worker workload_j worker_a) (score_worker workload_j worker_b) ≡ true
unfolding score_worker explain_worker_score ◌+ℤ◌ ◌-ℤ◌ ◌*ℤ◌
a_ties_b = refl

stale_tie_differs_example :
    (select_worker_predictive (outlook_at 200) workload_j (worker_b ∷ worker_a ∷ []) ≡ ok worker_b)
    × (select_worker workload_j (worker_b ∷ worker_a ∷ []) ≡ ok worker_a)
stale_tie_differs_example =
    stale_tie_differs Whole-IsIeee (outlook_at 200) workload_j worker_b worker_a b_eligible
      a_eligible b_stale a_stale a_ties_b refl
