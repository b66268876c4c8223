-- ===== src/Telemetry/Collector/Examples.antt =====
-- The theorem on the collector at an example.
use aegis_llm_control_plane.Base.{[], ◌∷◌, none, some}
use aegis_llm_control_plane.Base.Int.{seconds}
use aegis_llm_control_plane.Base.Float.{Whole, whole_float}
use aegis_llm_control_plane.Errors.{canceled}
use aegis_llm_control_plane.Cluster.Types.{Snapshot}
use aegis_llm_control_plane.Cluster.Store.{place}
use aegis_llm_control_plane.Cluster.Examples.{example_worker, worker_a, workload_j, workload_k}
use aegis_llm_control_plane.Telemetry.Memory.{InMemoryStore, new_in_memory_store, in_memory}
use aegis_llm_control_plane.Telemetry.Collector.{Calls, record_snapshot}
use aegis_llm_control_plane.Telemetry.Collector.Laws.{Appends, all_rows, record_snapshot-Appends}

-- One worker with a workload, one without, and a workload that waits.
abbrev two_workers : Snapshot Whole
two_workers = record {
  workers = worker_a ∷ example_worker "b" 100 100 ∷ [];
  workloads = place "a" workload_j ∷ workload_k ∷ [];
}

-- The first call has a live context, and the second one that is done.
abbrev two_calls : Calls (InMemoryStore Whole)
two_calls = record { store = new_in_memory_store; contexts = none ∷ some canceled ∷ [] }

record_snapshot-Appends_example :
    Appends
      (all_rows (seconds 10) two_workers.workloads two_workers.workers)
      two_calls
      (record_snapshot in_memory two_workers (seconds 10) two_calls)
record_snapshot-Appends_example = record_snapshot-Appends two_workers (seconds 10) two_calls
