-- ===== src/Scheduler/Examples/Passes.antt =====
-- The theorems on the queue, on placement and on a pass of the scheduler at examples.
use mathlib.Core.List.{Perm}
use aegis_llm_control_plane.Base.{◌≡◌, refl, ap, true, [], ◌∷◌, arith, ok, some, none, ℕ}
use aegis_llm_control_plane.Base.Dict.{lookup, insert, values}
use aegis_llm_control_plane.Base.Distinct.{Distinct}
use aegis_llm_control_plane.Base.Int.{◌+ℤ◌, ◌-ℤ◌, seconds}
use aegis_llm_control_plane.Base.Float.{Whole, whole_float}
use aegis_llm_control_plane.Cluster.Types.{Workload, priority_batch, priority_critical}
use aegis_llm_control_plane.Cluster.Topology.{matches_topology_requirement}
use aegis_llm_control_plane.Cluster.Validation.{
  validate_worker, validate_workload, validate_demand, validate_lifecycle,
}
use aegis_llm_control_plane.Cluster.Store.{place, register_worker, create_workload}
use aegis_llm_control_plane.Cluster.Store.Commit.{committed}
use aegis_llm_control_plane.Cluster.Store.Accounting.Traces.{IsSound}
use aegis_llm_control_plane.Cluster.Examples.{
  example_workload, example_store, example-IsSound, worker_a, workload_j, j_to_a,
}
use aegis_llm_control_plane.Shared.{Sys, Good}
use aegis_llm_control_plane.Ticker.{done, tick}
use aegis_llm_control_plane.Errors.{canceled}
use aegis_llm_control_plane.Scheduler.Score.{is_eligible}
use aegis_llm_control_plane.Scheduler.Select.{select_worker, select_from}
use aegis_llm_control_plane.Scheduler.Queue.{
  goes_first, effective_priority_weight, order_workloads_with_aging,
}
use aegis_llm_control_plane.Scheduler.Queue.Laws.{InOrder, order_workloads_with_aging-InOrder}
use aegis_llm_control_plane.Scheduler.Queue.Aging.{aging_overtakes}
use aegis_llm_control_plane.Scheduler.Placement.{place_with, decision, schedulable_workload}
use aegis_llm_control_plane.Scheduler.Placement.Laws.{
  IsPlacement, place_with_ok, place_with_succeeds,
}
use aegis_llm_control_plane.Scheduler.Service.{
  new_service, service_place_workload, schedule_pending, run, Moment,
}
use aegis_llm_control_plane.Scheduler.Service.Laws.{run-IsSound}
use aegis_llm_control_plane.Scheduler.Service.Alone.{IsLogged, schedule_pending-IsLogged}
use aegis_llm_control_plane.Scheduler.Service.Live.{Lands, service_place_workload-Lands}

abbrev example_sys : Sys Whole
example_sys = record { store = example_store; turns = [] }

-- the queue

abbrev old_batch : Workload Whole
old_batch = record (example_workload "old" 1) {
  priority = priority_batch;
  arrival_time = seconds 1;
}

abbrev new_critical : Workload Whole
new_critical = record (example_workload "new" 1) {
  priority = priority_critical;
  arrival_time = seconds 601;
}

order_workloads_with_aging-InOrder_example :
    let now = seconds 700 in
    let ordered = order_workloads_with_aging (new_critical ∷ old_batch ∷ []) now in
    Perm ordered (new_critical ∷ old_batch ∷ [])
    × InOrder (λ w. effective_priority_weight w now) ordered
order_workloads_with_aging-InOrder_example =
    order_workloads_with_aging-InOrder (new_critical ∷ old_batch ∷ []) (seconds 700)

aging_overtakes_example :
    goes_first (λ w. effective_priority_weight w (seconds 700)) old_batch new_critical ≡ true
unfolding ◌+ℤ◌ ◌-ℤ◌
aging_overtakes_example =
    aging_overtakes old_batch new_critical (seconds 700) refl refl (omega arith) (omega arith)
      (omega arith)

-- placement

j_schedulable :
    schedulable_workload "j" (record {
      workers = values example_store.workers;
      workloads = values example_store.workloads;
    })
    ≡ ok workload_j
unfolding register_worker create_workload lookup insert validate_worker validate_workload
    validate_demand validate_lifecycle
j_schedulable = refl

a_selected : select_worker workload_j (values example_store.workers) ≡ ok worker_a
unfolding register_worker create_workload lookup insert validate_worker validate_workload
    validate_demand validate_lifecycle select_worker select_from is_eligible
    matches_topology_requirement
a_selected = refl

j_placement : place_with select_worker decision "j" example_sys ≡ (
  ok (place "a" workload_j, decision workload_j worker_a),
  record { store = committed workload_j worker_a example_store; turns = [] },
)
j_placement =
    place_with_succeeds select_worker decision "j" example_store workload_j worker_a j_schedulable
      a_selected j_to_a

place_with_ok_example :
    IsPlacement select_worker "j" example_sys
      (place "a" workload_j)
      (place_with select_worker decision "j" example_sys).1.store
place_with_ok_example =
    place_with_ok select_worker decision "j" example_sys (place "a" workload_j)
      (decision workload_j worker_a) (ap (λ p. p.0) j_placement)

-- a pass

j_stored : lookup "j" example_store.workloads ≡ some workload_j
unfolding register_worker create_workload lookup insert validate_worker validate_workload
    validate_demand validate_lifecycle
j_stored = refl

a_stored : lookup "a" example_store.workers ≡ some worker_a
unfolding register_worker create_workload lookup insert validate_worker validate_workload
    validate_demand validate_lifecycle
a_stored = refl

one_entry_each : Distinct example_store.workers × Distinct example_store.workloads
unfolding register_worker create_workload lookup insert validate_worker validate_workload
    validate_demand validate_lifecycle
one_entry_each = ((refl, tt), ((refl, (refl, tt))))

a_fits : is_eligible workload_j worker_a ≡ true
unfolding is_eligible matches_topology_requirement
a_fits = refl

service_place_workload-Lands_example :
    Lands example_store workload_j (service_place_workload new_service (seconds 700) "j")
service_place_workload-Lands_example =
    service_place_workload-Lands new_service (seconds 700) example_store workload_j worker_a
      example-IsSound.well_formed one_entry_each.0 one_entry_each.1 j_stored refl a_stored a_fits

schedule_pending-IsLogged_example :
    IsLogged example_store (schedule_pending new_service (seconds 700) example_sys)
schedule_pending-IsLogged_example =
    schedule_pending-IsLogged new_service (seconds 700) example_store

-- A moment without forecasts.
abbrev moment_at : ℕ → Moment Whole
moment_at n = record { now = seconds n; get = λ id. none }

run-IsSound_example :
    Good IsSound
      (run new_service
        (seconds 5)
        (moment_at 700)
        (tick (moment_at 705) ∷ tick (moment_at 710) ∷ done canceled ∷ [])
        example_sys).1
run-IsSound_example =
    run-IsSound new_service (seconds 5) (moment_at 700)
      (tick (moment_at 705) ∷ tick (moment_at 710) ∷ done canceled ∷ []) example_sys
      (example-IsSound, tt)
