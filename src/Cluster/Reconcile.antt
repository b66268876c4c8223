-- ===== src/Cluster/Reconcile.antt =====
-- internal/cluster/reconcile.go: a pass that brings the workers' states up to date and takes the
-- workloads off unhealthy workers. Each call of the store comes after a turn of the others. The
-- counts start at 0 and grow by one for a worker or a workload, so they are far from 2^63.
pub mod Laws
pub mod Stale
pub mod Examples
use aegis_llm_control_plane.Base.{
  ℕ, ◌+◌, String, Bool, false, not, ◌&&◌, ◌==◌, List, [], ◌∷◌, Option, none, some, Result, ok, err,
  if◌then◌else◌,
}
use aegis_llm_control_plane.Base.Dict.{Dict, lookup, insert}
use aegis_llm_control_plane.Base.Int.{Time}
use aegis_llm_control_plane.Base.Float.{Float64}
use aegis_llm_control_plane.Errors.{Error, wrapped}
use aegis_llm_control_plane.Cluster.Types.{
  Worker, Workload, WorkerState, WorkloadState, Snapshot, worker_unhealthy, workload_recovering,
  workload_failed,
}
use aegis_llm_control_plane.Cluster.Health.{WorkerHealthConfig, evaluate_worker_health}
use aegis_llm_control_plane.Cluster.Validation.{holds_memory}
use aegis_llm_control_plane.Cluster.Store.{snapshot, update_worker, release_placement}
use aegis_llm_control_plane.Shared.{Sys, call}

pub record ReconcileResult : Type 0 where
  pub updated_workers : ℕ
  pub recovered_workloads : ℕ
  pub failed_workloads : ℕ

abbrev pub nothing_done : ReconcileResult
nothing_done = record { updated_workers = 0; recovered_workloads = 0; failed_workloads = 0 }

-- What a pass returns: its counts, with an error if one ended it.
abbrev pub Pass : Type 0 → Type 0
Pass F = ReconcileResult → Sys F → (ReconcileResult × Option Error) × Sys F

abbrev pub is_unhealthy : Option WorkerState → Bool
is_unhealthy none = false
is_unhealthy (some st) = st == worker_unhealthy

module _ {F : Type 0} where
  -- The map `workerStates`, which the first loop fills.
  unfoldable pub worker_states :
      Time → WorkerHealthConfig → List (Worker F) → Dict WorkerState → Dict WorkerState
  worker_states now config [] states = states
  worker_states now config (w ∷ ws) states =
      worker_states now config ws (insert w.id (evaluate_worker_health w now config) states)

  -- The four tests at the head of the second loop.
  abbrev pub is_stranded : Dict WorkerState → Workload F → Bool
  is_stranded states k =
      not (k.assigned_worker_id == "")
      && (is_unhealthy (lookup k.assigned_worker_id states) && holds_memory k.state)

  abbrev pub recovery_state : Workload F → WorkloadState
  recovery_state k = if k.checkpointable then workload_recovering else workload_failed

  abbrev pub count_release : Workload F → ReconcileResult → ReconcileResult
  count_release k r =
      if k.checkpointable
      then record r { recovered_workloads = r.recovered_workloads + 1 }
      else record r { failed_workloads = r.failed_workloads + 1 }

  -- An error ends the pass with the counts so far; otherwise the pass goes on with the counts after.
  abbrev pub go_on : {A : Type 0} → String → Result Error A → ReconcileResult → Pass F → Pass F
  go_on what (ok a) next rest r s = rest next s
  go_on what (err e) next rest r s = ((r, some (wrapped what e)), s)

module _ {F : Type 0} ⦃fl : Float64 F⦄ where
  abbrev pub write_state : Worker F → WorkerState → Sys F → Result Error (Unit {0}) × Sys F
  write_state w st = call (λ ctx. update_worker ctx (record w { state = st }))

  unfoldable pub reconcile_workers : Time → WorkerHealthConfig → List (Worker F) → Pass F
  reconcile_workers now config [] r s = ((r, none), s)
  reconcile_workers now config (w ∷ ws) r s =
      let st = evaluate_worker_health w now config in
      let rest = reconcile_workers now config ws in
      if st == w.state
      then rest r s
      else (let p = write_state w st s in
          go_on w.id p.0 (record r { updated_workers = r.updated_workers + 1 }) rest r p.1)

  unfoldable pub reconcile_workloads : Dict WorkerState → List (Workload F) → Pass F
  reconcile_workloads states [] r s = ((r, none), s)
  reconcile_workloads states (k ∷ ks) r s =
      let rest = reconcile_workloads states ks in
      if is_stranded states k
      then (let p = call (λ ctx. release_placement ctx k.id (recovery_state k)) s in
          go_on k.id p.0 (count_release k r) rest r p.1)
      else rest r s

  -- The second loop, if no error ended the first.
  abbrev pub then_workloads :
      Dict WorkerState
      → List (Workload F)
      → (ReconcileResult × Option Error) × Sys F
      → (ReconcileResult × Option Error) × Sys F
  then_workloads states ks ((r, none), s) = reconcile_workloads states ks r s
  then_workloads states ks ((r, some e), s) = ((r, some e), s)

  abbrev pub reconcile_snapshot :
      Time
      → WorkerHealthConfig
      → Result Error (Snapshot F)
      → Sys F
      → (ReconcileResult × Option Error) × Sys F
  reconcile_snapshot now config (err e) s = ((nothing_done, some e), s)
  reconcile_snapshot now config (ok snap) s =
      then_workloads (worker_states now config snap.workers []) snap.workloads
        (reconcile_workers now config snap.workers nothing_done s)

  unfoldable pub reconcile_cluster :
      Time → WorkerHealthConfig → Sys F → (ReconcileResult × Option Error) × Sys F
  reconcile_cluster now config s = let p = call snapshot s in reconcile_snapshot now config p.0 p.1
