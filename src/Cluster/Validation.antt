-- ===== src/Cluster/Validation.antt =====
-- internal/cluster/validation.go: the checks of every write. `none` is a nil error.
pub mod Range
use aegis_llm_control_plane.Base.{
  Bool, not, ◌&&◌, ◌||◌, ◌==◌, Option, none, some, ltb, eqb, if◌then◌else◌,
}
use aegis_llm_control_plane.Base.Int.{pos, lt_int}
use aegis_llm_control_plane.Base.Float.{Float64}
use aegis_llm_control_plane.Errors.{
  Error, WorkerFault, WorkloadFault, invalid_worker, invalid_workload,
}
use aegis_llm_control_plane.Cluster.Types.{
  Worker, Workload, WorkloadState, Priority, priority_critical, priority_standard, priority_batch,
  workload_pending, workload_queued, workload_placed, workload_running, workload_preempted,
  workload_recovering, workload_completed, workload_failed,
}

abbrev pub known_priority : Priority → Bool
known_priority p = p == priority_critical || p == priority_standard || p == priority_batch

abbrev pub known_state : WorkloadState → Bool
known_state s =
    s == workload_pending
    || s == workload_queued
    || s == workload_placed
    || s == workload_running
    || s == workload_preempted
    || s == workload_recovering
    || s == workload_completed
    || s == workload_failed

-- A workload in these states holds memory of its worker.
abbrev pub holds_memory : WorkloadState → Bool
holds_memory s = s == workload_placed || s == workload_running

module _ {F : Type 0} ⦃fl : Float64 F⦄ where
  open fl use {of_uint, lt}

  abbrev pub out_of_range : F → Bool
  out_of_range x = lt x (of_uint 0) || lt (of_uint 100) x

  unfoldable pub validate_worker : Worker F → Option Error
  validate_worker w =
      if w.id == ""
      then some (invalid_worker WorkerFault.empty_id)
      else if w.node_id == ""
      then some (invalid_worker WorkerFault.no_node)
      else if eqb w.total_memory_mb 0
      then some (invalid_worker WorkerFault.no_memory)
      else if ltb w.total_memory_mb w.available_memory_mb
      then some (invalid_worker WorkerFault.available_exceeds_total)
      else if out_of_range w.compute_utilization
      then some (invalid_worker WorkerFault.compute_out_of_range)
      else if out_of_range w.memory_utilization
      then some (invalid_worker WorkerFault.memory_out_of_range)
      else none

  -- `ValidateWorkload` up to its first switch.
  unfoldable pub validate_demand : Workload F → Option Error
  validate_demand w =
      if w.id == ""
      then some (invalid_workload WorkloadFault.empty_id)
      else if w.model_id == ""
      then some (invalid_workload WorkloadFault.no_model)
      else if eqb w.required_memory_mb 0
      then some (invalid_workload WorkloadFault.no_memory)
      else if lt_int w.prompt_tokens (pos 0)
      then some (invalid_workload WorkloadFault.prompt_tokens)
      else if lt_int w.max_output_tokens (pos 0)
      then some (invalid_workload WorkloadFault.output_tokens)
      else if lt_int w.batch_size (pos 0)
      then some (invalid_workload WorkloadFault.batch_size)
      else if ltb w.required_memory_mb w.kv_cache_memory_mb
      then some (invalid_workload WorkloadFault.kv_cache_exceeds)
      else if lt w.estimated_compute (of_uint 0)
      then some (invalid_workload WorkloadFault.compute_negative)
      else if lt_int w.expected_duration (pos 0)
      then some (invalid_workload WorkloadFault.duration_negative)
      else if lt_int w.latency_slo (pos 0)
      then some (invalid_workload WorkloadFault.slo_negative)
      else none

  -- Its two switches and what follows them.
  unfoldable pub validate_lifecycle : Workload F → Option Error
  validate_lifecycle w =
      if not (known_priority w.priority)
      then some (invalid_workload WorkloadFault.bad_priority)
      else if not (known_state w.state)
      then some (invalid_workload WorkloadFault.bad_state)
      else if holds_memory w.state && w.assigned_worker_id == ""
      then some (invalid_workload WorkloadFault.no_worker)
      else none

  unfoldable pub validate_workload : Workload F → Option Error
  validate_workload w = elim (validate_demand w) [ some e ↦ some e | none ↦ validate_lifecycle w ]
