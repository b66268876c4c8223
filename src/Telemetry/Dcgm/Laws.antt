-- ===== src/Telemetry/Dcgm/Laws.antt =====
-- internal/telemetry: an accepted sample, and an ingestion that fails.
use aegis_llm_control_plane.Base.{◌≤◌, ◌≡◌, eq_iff, ok, err, arith, []}
use aegis_llm_control_plane.Base.Int.{Time, Duration, ◌≤ℤ◌, time_sub}
use aegis_llm_control_plane.Base.Float.{Float64}
use aegis_llm_control_plane.Errors.{Error}
use aegis_llm_control_plane.Cluster.Types.{Worker}
use aegis_llm_control_plane.Cluster.Store.{Store, get_worker, update_worker}
use aegis_llm_control_plane.Shared.{call}
use aegis_llm_control_plane.Telemetry.Dcgm.{
  DcgmSample, apply_dcgm_sample, max_age_or_default, ingest,
}

module _ {F : Type 0} ⦃fl : Float64 F⦄ where
  -- A sample that is accepted is the worker's own, is not from the future and not too old, never
  -- makes more memory available than the worker had or than the sample reports free, leaves it at
  -- most the reported total, and leaves the worker's state, count and topology alone.
  pub apply_dcgm_sample_safe :
      (w u : Worker F) (sample : DcgmSample F) (now : Time) (max_age : Duration)
      → apply_dcgm_sample w sample now max_age ≡ ok u
      → (sample.worker_id ≡ w.id)
        × (sample.timestamp ≤ℤ now)
        × (time_sub now sample.timestamp ≤ℤ max_age_or_default max_age)
        × (u.available_memory_mb ≤ w.available_memory_mb)
        × (u.available_memory_mb ≤ sample.framebuffer_free_mb)
        × (u.available_memory_mb ≤ u.total_memory_mb)
        × (u.id ≡ w.id)
        × (u.state ≡ w.state)
        × (u.active_workload_count ≡ w.active_workload_count)
        × (u.topology ≡ w.topology)
  unfolding apply_dcgm_sample
  apply_dcgm_sample_safe w u sample now max_age h = ground (arith, eq_iff sample.worker_id w.id)

  -- When nobody else acts, an ingestion that fails leaves the store as it was.
  pub ingest_atomic :
      (max_age : Duration) (sample : DcgmSample F) (now : Time) (x : Store F) (e : Error)
      → (ingest max_age sample now (record { store = x; turns = [] })).0 ≡ err e
      → (ingest max_age sample now (record { store = x; turns = [] })).1.store ≡ x
  unfolding ingest call get_worker update_worker
  ingest_atomic max_age sample now x e h = ground arith
