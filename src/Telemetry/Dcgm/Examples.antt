-- ===== src/Telemetry/Dcgm/Examples.antt =====
-- The theorems on samples at examples.
use aegis_llm_control_plane.Base.{◌≤◌, ◌≡◌, refl, some, ok, err, []}
use aegis_llm_control_plane.Base.Dict.{lookup, insert}
use aegis_llm_control_plane.Base.Int.{pos, ◌≤ℤ◌, ◌-ℤ◌, ◌*ℤ◌, seconds, time_sub}
use aegis_llm_control_plane.Base.Float.{Whole, whole_float}
use aegis_llm_control_plane.Errors.{SampleFault, invalid_dcgm_sample}
use aegis_llm_control_plane.Cluster.Validation.{
  validate_worker, validate_workload, validate_demand, validate_lifecycle,
}
use aegis_llm_control_plane.Cluster.Store.{get_worker, register_worker, create_workload}
use aegis_llm_control_plane.Cluster.Examples.{example_store, worker_a}
use aegis_llm_control_plane.Shared.{call}
use aegis_llm_control_plane.Telemetry.Dcgm.{
  DcgmSample, applied, apply_dcgm_sample, max_age_or_default, ingest,
}
use aegis_llm_control_plane.Telemetry.Dcgm.Laws.{apply_dcgm_sample_safe}

-- 70 of 100 MB are free, where the control plane counts 90 as available.
abbrev sample : DcgmSample Whole
sample = record {
  worker_id = "a";
  node_id = "";
  gpu_type = "H100";
  timestamp = seconds 100;
  gpu_utilization_percent = some (pos 40);
  framebuffer_total_mb = 100;
  framebuffer_free_mb = 70;
  framebuffer_used_mb = 30;
}

accepted :
    apply_dcgm_sample worker_a sample (seconds 105) (seconds 10) ≡ ok (applied worker_a sample)
unfolding apply_dcgm_sample max_age_or_default time_sub ◌-ℤ◌ ◌*ℤ◌
accepted = refl

apply_dcgm_sample_safe_example :
    let u = applied worker_a sample in
    (sample.worker_id ≡ worker_a.id)
    × (seconds 100 ≤ℤ seconds 105)
    × (time_sub (seconds 105) (seconds 100) ≤ℤ max_age_or_default (seconds 10))
    × (u.available_memory_mb ≤ 90)
    × (u.available_memory_mb ≤ 70)
    × (u.available_memory_mb ≤ u.total_memory_mb)
    × (u.id ≡ worker_a.id)
    × (u.state ≡ worker_a.state)
    × (u.active_workload_count ≡ pos 0)
    × (u.topology ≡ worker_a.topology)
apply_dcgm_sample_safe_example =
    apply_dcgm_sample_safe worker_a (applied worker_a sample) sample (seconds 105) (seconds 10)
      accepted

abbrev too_much_free : DcgmSample Whole
too_much_free = record sample { framebuffer_free_mb = 101 }

rejected :
    (ingest
      (seconds 10)
      too_much_free
      (seconds 105)
      (record { store = example_store; turns = [] })).0
    ≡ err (invalid_dcgm_sample SampleFault.free_exceeds)
unfolding ingest call get_worker apply_dcgm_sample max_age_or_default time_sub ◌-ℤ◌ lookup insert
    register_worker create_workload validate_worker validate_workload validate_demand
    validate_lifecycle
rejected = refl
