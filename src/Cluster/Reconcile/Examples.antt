-- ===== src/Cluster/Reconcile/Examples.antt =====
-- The theorems on the reconciler at an example.
use aegis_llm_control_plane.Base.{◌+◌, ◌<◌, ◌≡◌, refl, [], ◌∷◌, none, some, ok}
use aegis_llm_control_plane.Base.Dict.{lookup, insert, values}
use aegis_llm_control_plane.Base.Int.{seconds}
use aegis_llm_control_plane.Base.Float.{Whole, whole_float}
use aegis_llm_control_plane.Cluster.Types.{Snapshot, worker_suspected}
use aegis_llm_control_plane.Cluster.Health.{default_worker_health_config, evaluate_worker_health}
use aegis_llm_control_plane.Cluster.Topology.{matches_topology_requirement}
use aegis_llm_control_plane.Cluster.Validation.{
  validate_worker, validate_workload, validate_demand, validate_lifecycle,
}
use aegis_llm_control_plane.Cluster.Store.{
  place, snapshot, register_worker, create_workload, update_worker, commit_placement,
  release_placement,
}
use aegis_llm_control_plane.Cluster.Store.Accounting.{reserved}
use aegis_llm_control_plane.Cluster.Examples.{
  example_store, workload_j, full_worker, full_store, full-IsWellFormed, j_to_full,
}
use aegis_llm_control_plane.Shared.{Sys, call}
use aegis_llm_control_plane.Cluster.Reconcile.{
  worker_states, write_state, reconcile_workers, reconcile_workloads, reconcile_cluster,
}
use aegis_llm_control_plane.Cluster.Reconcile.Laws.{
  count, is_changed, count_recoverable, count_unrecoverable, reconcile_cluster-count,
}
use aegis_llm_control_plane.Cluster.Reconcile.Stale.{committing, write_state_stale}

-- The workload "j" runs on the worker "a", which has sent no heartbeat.
abbrev busy : Sys Whole
busy = record { store = (commit_placement none "j" "a" example_store).1; turns = [] }

abbrev busy_snapshot : Snapshot Whole
busy_snapshot = record {
  workers = values busy.store.workers;
  workloads = values busy.store.workloads;
}

busy_snapshot_taken : (call snapshot busy).0 ≡ ok busy_snapshot
unfolding call snapshot
busy_snapshot_taken = refl

no_error : (reconcile_cluster (seconds 100) default_worker_health_config busy).0.1 ≡ none
unfolding call snapshot reconcile_cluster worker_states reconcile_workers reconcile_workloads
    evaluate_worker_health update_worker register_worker create_workload lookup insert
    validate_worker validate_workload validate_demand validate_lifecycle
    matches_topology_requirement commit_placement release_placement
no_error = refl

reconcile_cluster-count_example :
    let r = (reconcile_cluster (seconds 100) default_worker_health_config busy).0.0 in
    (r.updated_workers
      ≡ count (is_changed (seconds 100) default_worker_health_config) busy_snapshot.workers)
    × (r.recovered_workloads
        ≡ count_recoverable (seconds 100) default_worker_health_config busy_snapshot)
    × (r.failed_workloads
        ≡ count_unrecoverable (seconds 100) default_worker_health_config busy_snapshot)
reconcile_cluster-count_example =
    reconcile_cluster-count (seconds 100) default_worker_health_config busy busy_snapshot
      busy_snapshot_taken no_error

write_state_stale_example :
    let s' =
      (write_state full_worker worker_suspected
        (record { store = full_store; turns = committing "j" "f" ∷ [] })).1.store in
    (lookup "j" s'.workloads ≡ some (place "f" workload_j))
    × (lookup "f" s'.workers ≡ some (record full_worker { state = worker_suspected }))
    × (reserved "f" s' + 100 ≡ reserved "f" full_store + 100 + workload_j.required_memory_mb)
    × (0 < workload_j.required_memory_mb)
write_state_stale_example =
    write_state_stale full_store workload_j full_worker worker_suspected full-IsWellFormed j_to_full
