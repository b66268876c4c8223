-- ===== src/Errors.antt =====
-- The errors of the packages (`errors.New` and `fmt.Errorf`) as values, and `errors.Is` for the
-- sentinels. A wrapped error (`%w`) keeps what it wraps; of a message only what varies is kept.
use aegis_llm_control_plane.Base.{Bool, true, false, String, Result}

pub data WorkerFault : Type 0 where
  empty_id no_node no_memory available_exceeds_total compute_out_of_range : WorkerFault
  memory_out_of_range : WorkerFault

pub data WorkloadFault : Type 0 where
  empty_id no_model no_memory prompt_tokens output_tokens batch_size kv_cache_exceeds :
      WorkloadFault
  compute_negative duration_negative slo_negative bad_priority bad_state : WorkloadFault
  no_worker : WorkloadFault

pub data Conflict : Type 0 where
  not_healthy topology not_schedulable no_room : Conflict
  no_assignment cannot_release bad_target : Conflict

pub data SampleFault : Type 0 where
  empty_worker_id empty_sample_id id_mismatch no_timestamp in_future : SampleFault
  utilization_range no_total free_exceeds used_exceeds sum_exceeds : SampleFault

pub data Error : Type 0 where
  -- what `ctx.Err()` returns
  canceled deadline_exceeded : Error
  worker_not_found worker_already_exists workload_not_found : String → Error
  workload_already_exists : String → Error
  placement_conflict : Conflict → Error
  invalid_worker : WorkerFault → Error
  invalid_workload : WorkloadFault → Error
  -- workload %q is not schedulable from state %q
  unschedulable : String → String → Error
  no_eligible_worker : Error
  invalid_dcgm_sample : SampleFault → Error
  stale_dcgm_sample : Error
  insufficient_history invalid_telemetry_interval invalid_error_samples : Error
  unknown_scenario : String → Error
  -- an interval or a horizon that is not positive
  interval_not_positive horizon_not_positive : Error
  -- a panic on an index outside of a slice: no handler of an error sees it
  index_out_of_range : Error
  -- a panic of `time.NewTicker`
  non_positive_ticker : Error
  -- "update worker %q: %w" and its like
  wrapped : String → Error → Error

abbrev pub Outcome : Type 0 → Type 0
Outcome = Result Error

-- `errors.Is(err, ErrWorkerNotFound)` and its like
unfoldable pub is_worker_not_found : Error → Bool
is_worker_not_found (worker_not_found id) = true
is_worker_not_found (wrapped what e) = is_worker_not_found e
is_worker_not_found _ = false

unfoldable pub is_worker_already_exists : Error → Bool
is_worker_already_exists (worker_already_exists id) = true
is_worker_already_exists (wrapped what e) = is_worker_already_exists e
is_worker_already_exists _ = false

unfoldable pub is_workload_not_found : Error → Bool
is_workload_not_found (workload_not_found id) = true
is_workload_not_found (wrapped what e) = is_workload_not_found e
is_workload_not_found _ = false

unfoldable pub is_workload_already_exists : Error → Bool
is_workload_already_exists (workload_already_exists id) = true
is_workload_already_exists (wrapped what e) = is_workload_already_exists e
is_workload_already_exists _ = false

unfoldable pub is_no_eligible_worker : Error → Bool
is_no_eligible_worker no_eligible_worker = true
is_no_eligible_worker (wrapped what e) = is_no_eligible_worker e
is_no_eligible_worker _ = false

unfoldable pub is_insufficient_history : Error → Bool
is_insufficient_history insufficient_history = true
is_insufficient_history (wrapped what e) = is_insufficient_history e
is_insufficient_history _ = false
