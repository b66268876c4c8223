-- ===== src/Telemetry/Types.antt =====
-- internal/telemetry/record.go: one observation of a worker.
use aegis_llm_control_plane.Base.{ℕ, String, Bool}
use aegis_llm_control_plane.Base.Int.{ℤ, Time, Duration}
use aegis_llm_control_plane.Cluster.Types.{WorkerState, WorkloadState, Priority}

pub record Record (F : Type 0) : Type 0 where
  pub timestamp : Time
  pub worker_id : String
  pub worker_state : WorkerState
  pub available_memory_mb : ℕ
  pub total_memory_mb : ℕ
  pub compute_utilization : F
  pub memory_utilization : F
  pub active_workload_count : ℤ
  pub topology_domain : String
  pub workload_id : String
  pub workload_state : WorkloadState
  pub model_id : String
  pub priority : Priority
  pub required_memory_mb : ℕ
  pub estimated_compute : F
  pub latency_slo : Duration
  pub checkpointable : Bool
  pub assigned_worker_id : String
