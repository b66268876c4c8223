-- ===== src/Cluster/Store.antt =====
-- internal/cluster/memory_store.go and store.go: the state store. Each method holds the store's lock
-- throughout, so it is one step on the state. `ctx` is what `ctx.Err()` returns at its start.
-- `cloneWorker` and `cloneWorkload` copy; values here are never shared, so they leave no trace.
pub mod Commit
pub mod Release
pub mod Valid
pub mod Accounting
pub mod Effects
pub mod Contention
use aegis_llm_control_plane.Base.{
  ℕ, String, Bool, true, false, not, ◌&&◌, ◌||◌, ◌==◌, Option, none, some, List, [], ◌-◌, ltb, leb,
  if◌then◌else◌, M, pure, fail, check, guard, or_fail, ◌>>=◌, ◌>>◌,
}
use aegis_llm_control_plane.Base.Dict.{Dict, lookup, insert, values}
use aegis_llm_control_plane.Base.Int.{ℤ, pos, ◌+ℤ◌, ◌-ℤ◌, lt_int, wrap_int, add_uint, sub_uint}
use aegis_llm_control_plane.Base.Float.{Float64}
use aegis_llm_control_plane.Errors.{
  Error, Conflict, worker_not_found, worker_already_exists, workload_not_found,
  workload_already_exists, placement_conflict,
}
use aegis_llm_control_plane.Cluster.Types.{
  Worker, Workload, Snapshot, WorkloadState, worker_healthy, workload_pending, workload_queued,
  workload_placed, workload_recovering, workload_failed,
}
use aegis_llm_control_plane.Cluster.Topology.{matches_topology_requirement}
use aegis_llm_control_plane.Cluster.Validation.{validate_worker, validate_workload, holds_memory}

pub record Store (F : Type 0) : Type 0 where
  pub workers : Dict (Worker F)
  pub workloads : Dict (Workload F)

abbrev pub Method : Type 0 → Type 0 → Type 0
Method F A = M (Store F) Error A

-- A workload that may be placed.
abbrev pub is_schedulable : WorkloadState → Bool
is_schedulable s = s == workload_pending || s == workload_queued

abbrev pub is_release_target : WorkloadState → Bool
is_release_target s = s == workload_queued || (s == workload_recovering || s == workload_failed)

module _ {F : Type 0} where
  abbrev pub new_in_memory_state_store : Store F
  new_in_memory_state_store = record { workers = []; workloads = [] }

  abbrev put_worker : Worker F → Method F (Unit {0})
  put_worker w s = pure tt (record s { workers = insert w.id w s.workers })

  abbrev put_workload : Workload F → Method F (Unit {0})
  put_workload w s = pure tt (record s { workloads = insert w.id w s.workloads })

  abbrev find_worker : String → Method F (Worker F)
  find_worker id s = or_fail (lookup id s.workers) (worker_not_found id) s

  abbrev find_workload : String → Method F (Workload F)
  find_workload id s = or_fail (lookup id s.workloads) (workload_not_found id) s

  -- Fails if the name is taken.
  abbrev absent : {V : Type 0} → Option V → Error → Method F (Unit {0})
  absent none e = pure tt
  absent (some v) e = fail e

  unfoldable pub get_worker : Option Error → String → Method F (Worker F)
  get_worker ctx id = do check ctx; find_worker id

  unfoldable pub get_workload : Option Error → String → Method F (Workload F)
  get_workload ctx id = do check ctx; find_workload id

  unfoldable pub list_workers : Option Error → Method F (List (Worker F))
  list_workers ctx = do check ctx; λ s. pure (values s.workers) s

  unfoldable pub list_workloads : Option Error → Method F (List (Workload F))
  list_workloads ctx = do check ctx; λ s. pure (values s.workloads) s

  unfoldable pub snapshot : Option Error → Method F (Snapshot F)
  snapshot ctx = do
    check ctx
    λ s. pure (record { workers = values s.workers; workloads = values s.workloads }) s

  -- What a placement does to its worker and its workload.
  abbrev pub reserve : Workload F → Worker F → Worker F
  reserve workload worker = record worker {
    available_memory_mb = sub_uint worker.available_memory_mb workload.required_memory_mb;
    active_workload_count = wrap_int (worker.active_workload_count +ℤ pos 1);
  }

  abbrev pub place : String → Workload F → Workload F
  place worker_id workload = record workload {
    assigned_worker_id = worker_id;
    state = workload_placed;
  }

  unfoldable pub commit_placement : Option Error → String → String → Method F (Workload F)
  commit_placement ctx workload_id worker_id = do
    check ctx
    workload ← find_workload workload_id
    worker ← find_worker worker_id
    guard (worker.state == worker_healthy) (placement_conflict Conflict.not_healthy)
    guard (matches_topology_requirement workload worker) (placement_conflict Conflict.topology)
    guard (is_schedulable workload.state) (placement_conflict Conflict.not_schedulable)
    guard (leb workload.required_memory_mb worker.available_memory_mb)
        (placement_conflict Conflict.no_room)
    put_worker (reserve workload worker)
    put_workload (place worker.id workload)
    pure (place worker.id workload)

  -- What a release does to them. The difference does not wrap for a worker that passed its check.
  abbrev pub restore : Workload F → Worker F → Worker F
  restore workload worker = record worker {
    available_memory_mb =
        if ltb (sub_uint worker.total_memory_mb worker.available_memory_mb)
          workload.required_memory_mb
        then worker.total_memory_mb
        else add_uint worker.available_memory_mb workload.required_memory_mb;
    active_workload_count =
        if lt_int (pos 0) worker.active_workload_count
        then wrap_int (worker.active_workload_count -ℤ pos 1)
        else worker.active_workload_count;
  }

  abbrev pub unassign : WorkloadState → Workload F → Workload F
  unassign next workload = record workload { assigned_worker_id = ""; state = next }

module _ {F : Type 0} ⦃fl : Float64 F⦄ where
  unfoldable pub register_worker : Option Error → Worker F → Method F (Unit {0})
  register_worker ctx worker = do
    check ctx
    check (validate_worker worker)
    λ s. absent (lookup worker.id s.workers) (worker_already_exists worker.id) s
    put_worker worker

  unfoldable pub update_worker : Option Error → Worker F → Method F (Unit {0})
  update_worker ctx worker = do
    check ctx
    check (validate_worker worker)
    _ ← find_worker worker.id
    put_worker worker

  unfoldable pub create_workload : Option Error → Workload F → Method F (Unit {0})
  create_workload ctx workload = do
    check ctx
    check (validate_workload workload)
    λ s. absent (lookup workload.id s.workloads) (workload_already_exists workload.id) s
    put_workload workload

  unfoldable pub update_workload : Option Error → Workload F → Method F (Unit {0})
  update_workload ctx workload = do
    check ctx
    check (validate_workload workload)
    _ ← find_workload workload.id
    put_workload workload

  unfoldable pub release_placement : Option Error → String → WorkloadState → Method F (Workload F)
  release_placement ctx workload_id next = do
    check ctx
    workload ← find_workload workload_id
    guard (not (workload.assigned_worker_id == "")) (placement_conflict Conflict.no_assignment)
    worker ← find_worker workload.assigned_worker_id
    guard (holds_memory workload.state) (placement_conflict Conflict.cannot_release)
    guard (is_release_target next) (placement_conflict Conflict.bad_target)
    check (validate_worker (restore workload worker))
    check (validate_workload (unassign next workload))
    put_worker (restore workload worker)
    put_workload (unassign next workload)
    pure (unassign next workload)
