-- ===== src/Cluster/Types.antt =====
-- internal/cluster/types.go, topology.go (its types) and snapshot.go. F is `float64`.
-- The enumerations are strings in the source, and a value from outside may be any string.
use aegis_llm_control_plane.Base.{ℕ, String, Bool, List}
use aegis_llm_control_plane.Base.Int.{ℤ, Time, Duration}

abbrev pub WorkerState : Type 0
WorkerState = String

abbrev pub worker_healthy : WorkerState
worker_healthy = "HEALTHY"

abbrev pub worker_suspected : WorkerState
worker_suspected = "SUSPECTED"

abbrev pub worker_unhealthy : WorkerState
worker_unhealthy = "UNHEALTHY"

abbrev pub worker_draining : WorkerState
worker_draining = "DRAINING"

abbrev pub WorkloadState : Type 0
WorkloadState = String

abbrev pub workload_pending : WorkloadState
workload_pending = "PENDING"

abbrev pub workload_queued : WorkloadState
workload_queued = "QUEUED"

abbrev pub workload_placed : WorkloadState
workload_placed = "PLACED"

abbrev pub workload_running : WorkloadState
workload_running = "RUNNING"

abbrev pub workload_preempted : WorkloadState
workload_preempted = "PREEMPTED"

abbrev pub workload_recovering : WorkloadState
workload_recovering = "RECOVERING"

abbrev pub workload_completed : WorkloadState
workload_completed = "COMPLETED"

abbrev pub workload_failed : WorkloadState
workload_failed = "FAILED"

abbrev pub Priority : Type 0
Priority = String

abbrev pub priority_critical : Priority
priority_critical = "CRITICAL"

abbrev pub priority_standard : Priority
priority_standard = "STANDARD"

abbrev pub priority_batch : Priority
priority_batch = "BATCH"

abbrev pub InterconnectType : Type 0
InterconnectType = String

abbrev pub interconnect_nv_link : InterconnectType
interconnect_nv_link = "NVLINK"

pub record GpuTopology : Type 0 where
  pub node_id : String
  pub rack_id : String
  pub gpu_index : ℤ
  pub nv_link_domain : String
  pub interconnect : InterconnectType

-- An empty string is no requirement.
pub record TopologyRequirement : Type 0 where
  pub required_node_id : String
  pub required_rack_id : String
  pub required_nv_link_domain : String
  pub required_interconnect : InterconnectType

pub record Worker (F : Type 0) : Type 0 where
  pub id : String
  pub node_id : String
  pub gpu_type : String
  pub total_memory_mb : ℕ
  pub available_memory_mb : ℕ
  pub compute_utilization : F
  pub memory_utilization : F
  pub active_workload_count : ℤ
  pub state : WorkerState
  pub last_heartbeat : Time
  pub topology : GpuTopology
  pub topology_domain : String
  pub cached_models : List String

pub record Workload (F : Type 0) : Type 0 where
  pub id : String
  pub model_id : String
  pub arrival_time : Time
  pub priority : Priority
  pub prompt_tokens : ℤ
  pub max_output_tokens : ℤ
  pub batch_size : ℤ
  pub required_memory_mb : ℕ
  pub kv_cache_memory_mb : ℕ
  pub estimated_compute : F
  pub expected_duration : Duration
  pub latency_slo : Duration
  pub checkpointable : Bool
  pub topology_requirement : TopologyRequirement
  pub required_topology_domain : String
  pub kv_cache_key : String
  pub state : WorkloadState
  pub assigned_worker_id : String

pub record Snapshot (F : Type 0) : Type 0 where
  pub workers : List (Worker F)
  pub workloads : List (Workload F)
