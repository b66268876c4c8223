-- ===== src/Cluster/Examples.antt =====
-- Example workers and workloads, and the theorems on the store at them.
use aegis_llm_control_plane.Base.{
  ℕ, ◌+◌, ◌≤◌, ◌≡◌, refl, String, false, [], none, some, arith, ok, err,
}
use aegis_llm_control_plane.Base.Dict.{lookup, insert, total}
use aegis_llm_control_plane.Base.Int.{pos}
use aegis_llm_control_plane.Base.Float.{Whole, whole_float}
use aegis_llm_control_plane.Errors.{Conflict, workload_not_found, placement_conflict}
use aegis_llm_control_plane.Cluster.Types.{
  Worker, Workload, worker_healthy, workload_pending, workload_queued, priority_standard,
}
use aegis_llm_control_plane.Cluster.Topology.{matches_topology_requirement}
use aegis_llm_control_plane.Cluster.Validation.{
  validate_worker, validate_workload, validate_demand, validate_lifecycle,
}
use aegis_llm_control_plane.Cluster.Store.{
  Store, new_in_memory_state_store, place, unassign, register_worker, create_workload,
  commit_placement, release_placement,
}
use aegis_llm_control_plane.Cluster.Store.Commit.{IsCommittable}
use aegis_llm_control_plane.Cluster.Store.Valid.{IsWellFormed, commit_placement-IsWellFormed}
use aegis_llm_control_plane.Cluster.Store.Accounting.{commit_placement-IsAccounted}
use aegis_llm_control_plane.Cluster.Store.Effects.{
  IsTaken, IsReturned, commit_placement-IsTaken, release_placement-IsReturned,
}
use aegis_llm_control_plane.Cluster.Store.Accounting.Traces.{
  registers, creates, Reach, here, more, IsSound, Reach-IsSound,
}
use aegis_llm_control_plane.Cluster.Store.Contention.{
  commit_placement_twice, release_placement-commit_placement,
}

abbrev pub example_worker : String → ℕ → ℕ → Worker Whole
example_worker id total available = record {
  id = id;
  node_id = "n";
  gpu_type = "";
  total_memory_mb = total;
  available_memory_mb = available;
  compute_utilization = some (pos 10);
  memory_utilization = some (pos 20);
  active_workload_count = pos 0;
  state = worker_healthy;
  last_heartbeat = pos 0;
  topology = record {
    node_id = "n";
    rack_id = "r";
    gpu_index = pos 0;
    nv_link_domain = "";
    interconnect = "";
  };
  topology_domain = "";
  cached_models = [];
}

abbrev pub example_workload : String → ℕ → Workload Whole
example_workload id memory = record {
  id = id;
  model_id = "m";
  arrival_time = pos 7;
  priority = priority_standard;
  prompt_tokens = pos 1;
  max_output_tokens = pos 1;
  batch_size = pos 1;
  required_memory_mb = memory;
  kv_cache_memory_mb = 0;
  estimated_compute = some (pos 1);
  expected_duration = pos 1;
  latency_slo = pos 1;
  checkpointable = false;
  topology_requirement = record {
    required_node_id = "";
    required_rack_id = "r";
    required_nv_link_domain = "";
    required_interconnect = "";
  };
  required_topology_domain = "";
  kv_cache_key = "";
  state = workload_pending;
  assigned_worker_id = "";
}

abbrev pub worker_a : Worker Whole
worker_a = example_worker "a" 100 90

abbrev pub workload_j : Workload Whole
workload_j = example_workload "j" 40

abbrev pub workload_k : Workload Whole
workload_k = example_workload "k" 30

abbrev one_worker : Store Whole
one_worker = (register_worker none worker_a new_in_memory_state_store).1

abbrev one_workload : Store Whole
one_workload = (create_workload none workload_j one_worker).1

-- A worker with 90 of 100 MB free, and workloads that need 40 and 30.
abbrev pub example_store : Store Whole
example_store = (create_workload none workload_k one_workload).1

example_Reach : Reach new_in_memory_state_store example_store
unfolding total
example_Reach =
    more
      (more (more here (registers none worker_a (omega arith) refl)) (creates none workload_j refl))
      (creates none workload_k refl)

pub example-IsSound : IsSound example_store
example-IsSound = Reach-IsSound example_Reach

pub j_to_a : IsCommittable example_store "j" "a" workload_j worker_a
unfolding register_worker create_workload lookup insert validate_worker validate_workload
    validate_demand validate_lifecycle matches_topology_requirement
j_to_a = record {
  found_workload = refl;
  found_worker = refl;
  healthy = refl;
  topology = refl;
  schedulable = refl;
  room = omega arith;
}

j_placed : (commit_placement none "j" "a" example_store).0 ≡ ok (place "a" workload_j)
unfolding register_worker create_workload lookup insert validate_worker validate_workload
    validate_demand validate_lifecycle matches_topology_requirement commit_placement
    release_placement
j_placed = refl

k_placed :
    (commit_placement none "k" "a" (commit_placement none "j" "a" example_store).1).0
    ≡ ok (place "a" workload_k)
unfolding register_worker create_workload lookup insert validate_worker validate_workload
    validate_demand validate_lifecycle matches_topology_requirement commit_placement
    release_placement
k_placed = refl

l_unknown : (commit_placement none "l" "a" example_store).0 ≡ err (workload_not_found "l")
unfolding register_worker create_workload lookup insert validate_worker validate_workload
    validate_demand validate_lifecycle matches_topology_requirement commit_placement
    release_placement
l_unknown = refl

j_not_placed :
    (release_placement none "j" workload_queued example_store).0
    ≡ err (placement_conflict Conflict.no_assignment)
unfolding register_worker create_workload lookup insert validate_worker validate_workload
    validate_demand validate_lifecycle matches_topology_requirement commit_placement
    release_placement
j_not_placed = refl

j_released :
    (release_placement none "j" workload_queued (commit_placement none "j" "a" example_store).1).0
    ≡ ok (unassign workload_queued (place "a" workload_j))
unfolding register_worker create_workload lookup insert validate_worker validate_workload
    validate_demand validate_lifecycle matches_topology_requirement commit_placement
    release_placement
j_released = refl

Reach-IsSound_example : IsSound example_store
Reach-IsSound_example = Reach-IsSound example_Reach

commit_placement-IsTaken_example :
    (k : Workload Whole) × (w : Worker Whole) × (w' : Worker Whole) × IsTaken example_store
      (commit_placement none "j" "a" example_store).1
      "j"
      "a"
      k
      (place "a" workload_j)
      w
      w'
commit_placement-IsTaken_example =
    commit_placement-IsTaken example_store none "j" "a" (place "a" workload_j)
      example-IsSound.well_formed j_placed

-- The store after the commit.
abbrev j_store : Store Whole
j_store = (commit_placement none "j" "a" example_store).1

release_placement-IsReturned_example :
    (k : Workload Whole) × (w : Worker Whole) × (w' : Worker Whole) × IsReturned j_store
      (release_placement none "j" workload_queued j_store).1
      "j"
      workload_queued
      k
      (unassign workload_queued (place "a" workload_j))
      w
      w'
release_placement-IsReturned_example =
    release_placement-IsReturned j_store none "j" workload_queued
      (unassign workload_queued (place "a" workload_j))
      (commit_placement-IsWellFormed example_store none "j" "a" example-IsSound.well_formed)
      (commit_placement-IsAccounted example_store none "j" "a" example-IsSound.well_formed
        example-IsSound.accounted)
      j_released

commit_placement_twice_example :
    (w : Worker Whole) × (lookup "a" example_store.workers ≡ some w)
    × ((place "a" workload_j).required_memory_mb + (place "a" workload_k).required_memory_mb
        ≤ w.available_memory_mb)
commit_placement_twice_example =
    commit_placement_twice example_store none none "j" "k" "a" (place "a" workload_j)
      (place "a" workload_k) example-IsSound.well_formed j_placed k_placed

release_placement-commit_placement_example :
    let p =
      release_placement none "j" workload_queued (commit_placement none "j" "a" example_store).1 in
    (p.0 ≡ ok (unassign workload_queued workload_j))
    × (lookup "a" p.1.workers ≡ some worker_a)
    × (lookup "j" p.1.workloads ≡ some (unassign workload_queued workload_j))
release_placement-commit_placement_example =
    release_placement-commit_placement example_store "j" "a" workload_queued workload_j worker_a
      example-IsSound.well_formed j_to_a refl (omega arith) (omega arith)

-- A store with one worker, all of whose memory is free.
abbrev pub full_worker : Worker Whole
full_worker = example_worker "f" 100 100

abbrev pub full_store : Store Whole
full_store =
    (create_workload none workload_j
      (register_worker none full_worker new_in_memory_state_store).1).1

full_Reach : Reach new_in_memory_state_store full_store
unfolding total
full_Reach =
    more (more here (registers none full_worker (omega arith) refl)) (creates none workload_j refl)

pub full-IsWellFormed : IsWellFormed full_store
full-IsWellFormed = (Reach-IsSound full_Reach).well_formed

pub j_to_full : IsCommittable full_store "j" "f" workload_j full_worker
unfolding register_worker create_workload lookup insert validate_worker validate_workload
    validate_demand validate_lifecycle matches_topology_requirement
j_to_full = record {
  found_workload = refl;
  found_worker = refl;
  healthy = refl;
  topology = refl;
  schedulable = refl;
  room = omega arith;
}
