-- ===== src/Telemetry/Dcgm.antt =====
-- internal/telemetry: dcgm.go and dcgm_ingestor.go, the checks of a sample, and its write into the
-- store: a read, a change of the copy, and a write, with turns of the others before both calls.
pub mod Laws
pub mod Examples
use aegis_llm_control_plane.Base.{
  ℕ, String, Bool, true, false, not, ◌||◌, ◌==◌, Option, none, some, Result, ok, err, if◌then◌else◌,
  ltb, eqb, ◌>>=◌, proceed, lift,
}
use aegis_llm_control_plane.Base.Int.{
  pos, Time, Duration, seconds, le_int, lt_int, is_zero_time, after, time_sub, add_uint,
}
use aegis_llm_control_plane.Base.Float.{Float64}
use aegis_llm_control_plane.Errors.{
  Error, Outcome, SampleFault, invalid_dcgm_sample, stale_dcgm_sample, wrapped,
}
use aegis_llm_control_plane.Cluster.Types.{Worker}
use aegis_llm_control_plane.Cluster.Store.{get_worker, update_worker}
use aegis_llm_control_plane.Shared.{Run, call}

abbrev pub default_dcgm_max_age : Duration
default_dcgm_max_age = seconds 15

pub record DcgmSample (F : Type 0) : Type 0 where
  pub worker_id : String
  pub node_id : String
  pub gpu_type : String
  pub timestamp : Time
  pub gpu_utilization_percent : F
  pub framebuffer_total_mb : ℕ
  pub framebuffer_free_mb : ℕ
  pub framebuffer_used_mb : ℕ

-- `if maxAge <= 0 { maxAge = DefaultDCGMMaxAge }`
unfoldable pub max_age_or_default : Duration → Duration
max_age_or_default max_age = if le_int max_age (pos 0) then default_dcgm_max_age else max_age

module _ {F : Type 0} ⦃fl : Float64 F⦄ where
  open fl use {of_uint, mul, div, lt}

  -- What the sample changes: the rest of the worker stays with the scheduler.
  abbrev pub applied : Worker F → DcgmSample F → Worker F
  applied worker sample = record worker {
    total_memory_mb = sample.framebuffer_total_mb;
    available_memory_mb =
        if ltb sample.framebuffer_free_mb worker.available_memory_mb
        then sample.framebuffer_free_mb
        else worker.available_memory_mb;
    compute_utilization = sample.gpu_utilization_percent;
    memory_utilization =
        mul (div (of_uint sample.framebuffer_used_mb) (of_uint sample.framebuffer_total_mb))
          (of_uint 100);
    last_heartbeat = sample.timestamp;
    node_id = if sample.node_id == "" then worker.node_id else sample.node_id;
    gpu_type = if sample.gpu_type == "" then worker.gpu_type else sample.gpu_type;
  }

  abbrev reject : SampleFault → Outcome (Worker F)
  reject fault = err (invalid_dcgm_sample fault)

  unfoldable pub apply_dcgm_sample : Worker F → DcgmSample F → Time → Duration → Outcome (Worker F)
  apply_dcgm_sample worker sample now max_age =
      if worker.id == ""
      then reject SampleFault.empty_worker_id
      else if sample.worker_id == ""
      then reject SampleFault.empty_sample_id
      else if not (sample.worker_id == worker.id)
      then reject SampleFault.id_mismatch
      else if is_zero_time sample.timestamp
      then reject SampleFault.no_timestamp
      else if after sample.timestamp now
      then reject SampleFault.in_future
      else if lt_int (max_age_or_default max_age) (time_sub now sample.timestamp)
      then err stale_dcgm_sample
      else if lt sample.gpu_utilization_percent (of_uint 0)
          || lt (of_uint 100) sample.gpu_utilization_percent
      then reject SampleFault.utilization_range
      else if eqb sample.framebuffer_total_mb 0
      then reject SampleFault.no_total
      else if ltb sample.framebuffer_total_mb sample.framebuffer_free_mb
      then reject SampleFault.free_exceeds
      else if ltb sample.framebuffer_total_mb sample.framebuffer_used_mb
      then reject SampleFault.used_exceeds
      else if ltb sample.framebuffer_total_mb
          (add_uint sample.framebuffer_free_mb sample.framebuffer_used_mb)
      then reject SampleFault.sum_exceeds
      else ok (applied worker sample)

-- `fmt.Errorf("...: %w", err)` around a call.
abbrev pub wrap_error : {A : Type 0} → String → Outcome A → Outcome A
wrap_error what (ok a) = ok a
wrap_error what (err e) = err (wrapped what e)

abbrev pub wrapping : {F A : Type 0} → String → Run F A → Run F A
wrapping what m s = let p = m s in (wrap_error what p.0, p.1)

-- The age that `NewDCGMIngestor` stores.
abbrev pub new_dcgm_ingestor : Duration → Duration
new_dcgm_ingestor max_age = max_age_or_default max_age

module _ {F : Type 0} ⦃fl : Float64 F⦄ where
  -- `Ingest` of an ingestor with this age.
  unfoldable pub ingest : Duration → DcgmSample F → Time → Run F (Unit {0})
  ingest max_age sample now = do
    worker ← wrapping sample.worker_id (call (λ ctx. get_worker ctx sample.worker_id))
    updated ← lift (apply_dcgm_sample worker sample now max_age)
    wrapping sample.worker_id (call (λ ctx. update_worker ctx updated))
