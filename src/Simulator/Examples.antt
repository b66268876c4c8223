-- ===== src/Simulator/Examples.antt =====
-- The theorems on the simulator at examples.
use aegis_llm_control_plane.Base.{
  ℕ, ◌≡◌, ◌⊎◌, inl, inr, refl, true, false, String, ◌==◌, [], ◌∷◌, none, some, ok, err,
  if◌then◌else◌,
}
use aegis_llm_control_plane.Base.Dict.{lookup, insert, delete, Holds-insert}
use aegis_llm_control_plane.Base.Int.{pos, seconds, Time, ◌+ℤ◌, ◌-ℤ◌, ◌*ℤ◌}
use aegis_llm_control_plane.Base.Float.{Whole, whole_float, Whole-IsIeee}
use aegis_llm_control_plane.Errors.{worker_not_found, unknown_scenario}
use aegis_llm_control_plane.Cluster.Types.{Workload, workload_queued, workload_completed}
use aegis_llm_control_plane.Cluster.Topology.{matches_topology_requirement}
use aegis_llm_control_plane.Cluster.Validation.{
  holds_memory, validate_worker, validate_workload, validate_demand, validate_lifecycle,
}
use aegis_llm_control_plane.Cluster.Store.{
  Store, place, unassign, register_worker, create_workload, commit_placement, release_placement,
  get_worker, get_workload, update_worker, update_workload,
}
use aegis_llm_control_plane.Cluster.Store.Accounting.Traces.{Step-IsSound, commits}
use aegis_llm_control_plane.Cluster.Examples.{
  example_store, example-IsSound, workload_j, workload_k,
}
use aegis_llm_control_plane.Shared.{call, alone}
use aegis_llm_control_plane.Simulator.Scenario.{Utilization, scenario_burst, utilization}
use aegis_llm_control_plane.Simulator.Scenario.Laws.{is_known, InRange, utilization_total}
use aegis_llm_control_plane.Simulator.Workers.{new, update_workers, run}
use aegis_llm_control_plane.Simulator.Workers.Laws.{update_workers_succeeds}
use aegis_llm_control_plane.Simulator.Lifecycle.{
  ActiveWorkload, WorkloadLifecycle, active_workload, completed, remove, vacate, complete_workload,
  advance_workload, advance_all, advance_workloads,
}
use aegis_llm_control_plane.Simulator.Lifecycle.Laws.{IsOwn, advance_workloads_ok}
use aegis_llm_control_plane.Simulator.Lifecycle.Sound.{world}
use aegis_llm_control_plane.Simulator.Lifecycle.Complete.{IsKept}
use aegis_llm_control_plane.Simulator.Workers.Runs.{run-IsKept}
use aegis_llm_control_plane.Ticker.{tick, done}
use aegis_llm_control_plane.Errors.{canceled}
use aegis_llm_control_plane.Simulator.Lifecycle.Stuck.{advance_workloads_stuck}

utilization_total_example :
    ((u : Utilization Whole) × ((utilization scenario_burst (pos 7) (pos 40) ≡ ok u)
        × InRange u
        × (is_known scenario_burst ≡ true)))
    ⊎ ((utilization {F = Whole} scenario_burst (pos 7) (pos 40)
          ≡ err (unknown_scenario scenario_burst))
        × (is_known scenario_burst ≡ false))
utilization_total_example = utilization_total Whole-IsIeee scenario_burst (pos 7) (pos 40)

abbrev clock : ℕ → Time
clock i = seconds 60

-- A store with one placed workload, and a lifecycle that tracks it.

abbrev placed_store : Store Whole
placed_store = (commit_placement none "j" "a" example_store).1

abbrev active_j : ActiveWorkload
active_j = record {
  workload_id = "j";
  worker_id = "a";
  memory_mb = 40;
  started_at = pos 7;
  duration = pos 1;
}

abbrev tracked : WorkloadLifecycle
tracked = ("j", active_j) ∷ []

no_entry : {A : Type 0} (id : String) (a : A) → lookup id [] ≡ some a → ⊥
unfolding lookup
no_entry id a e = cc e

tracked-IsOwn : IsOwn tracked
unfolding insert
tracked-IsOwn =
    Holds-insert (λ id a. a.workload_id ≡ id) "j" active_j [] (λ id a e. absurd (no_entry id a e))
      refl

placed-IsKept : IsKept placed_store
unfolding register_worker create_workload lookup insert validate_worker validate_workload
    validate_demand validate_lifecycle matches_topology_requirement commit_placement
placed-IsKept = record {
  sound = Step-IsSound (commits none "j" "a") example-IsSound;
  settled =
      Holds-insert Settled "k" workload_k (insert "j" (place "a" workload_j) [])
        (Holds-insert Settled "j" (place "a" workload_j) [] (λ id k e. absurd (no_entry id k e))
          (inr (inl refl)))
        (inl refl);
  once = (refl, tt);
}
  where
    Settled : String → Workload Whole → Type 0
    Settled id k =
        (k.assigned_worker_id ≡ "")
        ⊎ ((holds_memory k.state ≡ true) ⊎ ((k.state == workload_completed) ≡ true))

update_workers_succeeds_example :
    (t : Store Whole) × ((update_workers new clock (pos 0) (alone placed_store) ≡ (ok tt, alone t))
      × IsKept t)
update_workers_succeeds_example =
    update_workers_succeeds Whole-IsIeee new clock (pos 0) placed_store refl placed-IsKept

advance_workloads_ok_example :
    lookup "j" (advance_workloads (seconds 10) (world placed_store tracked)).1.lifecycle
    ≡ (if completed "j" (seconds 10) tracked then none else lookup "j" tracked)
unfolding register_worker create_workload lookup insert delete validate_worker validate_workload
    validate_demand validate_lifecycle matches_topology_requirement commit_placement completed
    active_workload remove ◌+ℤ◌ ◌-ℤ◌ ◌*ℤ◌ vacate advance_workloads advance_all advance_workload
    complete_workload call get_worker get_workload update_worker update_workload
advance_workloads_ok_example =
    advance_workloads_ok (seconds 10) (world placed_store tracked) "j" tracked-IsOwn refl

run-IsKept_example :
    IsKept
      (run new
        (seconds 1)
        (seconds 2)
        (tick (seconds 10, clock) ∷ done canceled ∷ [])
        (alone placed_store)).1.world.sys.store
run-IsKept_example =
    run-IsKept Whole-IsIeee new (seconds 1) (seconds 2)
      (tick (seconds 10, clock) ∷ done canceled ∷ []) placed_store refl placed-IsKept

abbrev released_store : Store Whole
released_store = (release_placement none "j" workload_queued placed_store).1

advance_workloads_stuck_example :
    advance_workloads (seconds 10) (world released_store tracked)
    ≡ (err (worker_not_found ""), world released_store tracked)
unfolding register_worker create_workload lookup insert validate_worker validate_workload
    validate_demand validate_lifecycle matches_topology_requirement commit_placement
    release_placement completed active_workload ◌+ℤ◌
advance_workloads_stuck_example =
    advance_workloads_stuck (seconds 10) active_j (unassign workload_queued (place "a" workload_j))
      released_store refl refl refl refl refl
