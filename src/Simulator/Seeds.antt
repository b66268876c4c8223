-- ===== src/Simulator/Seeds.antt =====
-- internal/simulator/simulator.go: the workers and the workloads that a simulated cluster starts with.
pub mod Laws
use Prim.Native.String.{◌++◌}
use aegis_llm_control_plane.Base.{
  ℕ, zero, suc, ◌+◌, ◌/◌, ◌%◌, String, true, false, List, [], ◌∷◌, ltb, ok, err, Result, proceed,
  ◌>>=◌, ◌>>◌, pure, if◌then◌else◌,
}
use aegis_llm_control_plane.Base.Int.{ℤ, pos, pos_part, Time, seconds}
use aegis_llm_control_plane.Base.Float.{Float64}
use aegis_llm_control_plane.Cluster.Types.{
  Worker, Workload, GpuTopology, TopologyRequirement, worker_healthy, interconnect_nv_link,
  workload_queued, workload_running, Priority, priority_critical, priority_standard, priority_batch,
}
use aegis_llm_control_plane.Cluster.Store.{
  register_worker, create_workload, commit_placement, update_workload,
}
use aegis_llm_control_plane.Shared.{Run, call}

-- `%d` of a number that is not negative.
abbrev digit : ℕ → String
digit n =
    if ltb n 1
    then "0"
    else if ltb n 2
    then "1"
    else if ltb n 3
    then "2"
    else if ltb n 4
    then "3"
    else if ltb n 5
    then "4"
    else if ltb n 6
    then "5"
    else if ltb n 7
    then "6"
    else if ltb n 8
    then "7"
    else if ltb n 9
    then "8"
    else "9"

-- A number has fewer digits than one more than itself, so that n + 1 is fuel enough.
unfoldable pub digits : ℕ → ℕ → String
digits zero n = ""
digits (suc fuel) n =
    let front = digits fuel (n / 10) in if ltb n 10 then digit n else front ++ digit (n % 10)

abbrev pub decimal : ℕ → String
decimal n = digits (n + 1) n

abbrev pub node_name : ℕ → String
node_name i = "node-" ++ decimal (i + 1)

abbrev pub rack_name : ℕ → String
rack_name i = "rack-" ++ decimal (i % 2 + 1)

abbrev pub worker_name : ℕ → String
worker_name i = "worker-" ++ decimal (i + 1)

abbrev pub anywhere : TopologyRequirement
anywhere = record {
  required_node_id = "";
  required_rack_id = "";
  required_nv_link_domain = "";
  required_interconnect = "";
}

module _ {F : Type 0} ⦃fl : Float64 F⦄ where
  open fl use {of_uint, div}

  -- The worker of the round i. `now` is the clock.
  unfoldable pub seed_worker : Time → ℕ → Worker F
  seed_worker now i = record {
    id = worker_name i;
    node_id = node_name i;
    gpu_type = "NVIDIA-H100";
    total_memory_mb = 81_920;
    available_memory_mb = 81_920;
    compute_utilization = of_uint 0;
    memory_utilization = of_uint 0;
    active_workload_count = pos 0;
    state = worker_healthy;
    last_heartbeat = now;
    topology = record {
      node_id = node_name i;
      rack_id = rack_name i;
      gpu_index = pos i;
      nv_link_domain = "nvlink-" ++ decimal (i / 2 + 1);
      interconnect = interconnect_nv_link;
    };
    topology_domain = rack_name i;
    cached_models = [];
  }

  -- The loop from i, with the rounds that are left.
  unfoldable pub seed_from : (ℕ → Time) → ℕ → ℕ → Run F (Unit {0})
  seed_from clock i zero = pure tt
  seed_from clock i (suc left) = do
    call (λ ctx. register_worker ctx (seed_worker (clock i) i))
    seed_from clock (i + 1) left

  -- A negative count makes no round.
  unfoldable pub seed_workers : (ℕ → Time) → ℤ → Run F (Unit {0})
  seed_workers clock count = seed_from clock 0 (pos_part count)

  -- Constants with two decimals.
  abbrev pub hundredths : ℕ → F
  hundredths n = div (of_uint n) (of_uint 100)

  abbrev pub workload_1 : Time → Workload F
  workload_1 now = record {
    id = "workload-1";
    model_id = "llama-3-8b";
    arrival_time = now;
    priority = priority_standard;
    prompt_tokens = pos 2048;
    max_output_tokens = pos 512;
    batch_size = pos 1;
    required_memory_mb = 18_000;
    kv_cache_memory_mb = 2000;
    estimated_compute = hundredths 55;
    expected_duration = seconds 120;
    latency_slo = pos 500_000_000;
    checkpointable = true;
    topology_requirement = anywhere;
    required_topology_domain = "";
    kv_cache_key = "";
    state = workload_queued;
    assigned_worker_id = "";
  }

  abbrev pub workload_2 : Time → Workload F
  workload_2 now = record {
    id = "workload-2";
    model_id = "mistral-7b";
    arrival_time = now;
    priority = priority_critical;
    prompt_tokens = pos 8192;
    max_output_tokens = pos 1024;
    batch_size = pos 4;
    required_memory_mb = 24_000;
    kv_cache_memory_mb = 6000;
    estimated_compute = hundredths 75;
    expected_duration = seconds 90;
    latency_slo = pos 250_000_000;
    checkpointable = true;
    topology_requirement = anywhere;
    required_topology_domain = "";
    kv_cache_key = "";
    state = workload_queued;
    assigned_worker_id = "";
  }

  abbrev pub workload_3 : Time → Workload F
  workload_3 now = record {
    id = "workload-3";
    model_id = "vision-model";
    arrival_time = now;
    priority = priority_batch;
    prompt_tokens = pos 1024;
    max_output_tokens = pos 256;
    batch_size = pos 8;
    required_memory_mb = 12_000;
    kv_cache_memory_mb = 1000;
    estimated_compute = hundredths 40;
    expected_duration = seconds 180;
    latency_slo = seconds 1;
    checkpointable = false;
    topology_requirement = anywhere;
    required_topology_domain = "";
    kv_cache_key = "";
    state = workload_queued;
    assigned_worker_id = "";
  }

  -- The loop over the workloads from index i.
  unfoldable pub place_from : ℕ → List (Workload F) → Run F (Unit {0})
  place_from i [] = pure tt
  place_from i (workload ∷ workloads) = do
    call (λ ctx. create_workload ctx workload)
    placed ← call (λ ctx. commit_placement ctx workload.id (worker_name i))
    call (λ ctx. update_workload ctx (record placed { state = workload_running }))
    place_from (i + 1) workloads

  -- `clock` is what `time.Now()` returns for the three workloads.
  unfoldable pub seed_workloads : (ℕ → Time) → Run F (Unit {0})
  seed_workloads clock =
      place_from 0 (workload_1 (clock 0) ∷ workload_2 (clock 1) ∷ workload_3 (clock 2) ∷ [])
