-- ===== src/Cluster/Store/Effects.antt =====
-- internal/cluster/memory_store.go: what a successful commit or release changes in the maps.
use aegis_llm_control_plane.Base.{
  ◌+◌, ◌≡◌, ◌⊎◌, refl, sym, ap, subst, String, true, ◌==◌, eq_iff, eq_refl, Option, some, arith, ok,
  if◌then◌else◌,
}
use aegis_llm_control_plane.Base.Dict.{lookup, insert, lookup-insert, lookup_own}
use aegis_llm_control_plane.Base.Int.{pos, ◌+ℤ◌, wrap_int}
use aegis_llm_control_plane.Base.Float.{Float64}
use aegis_llm_control_plane.Errors.{Error}
use aegis_llm_control_plane.Cluster.Types.{Worker, Workload, WorkloadState}
use aegis_llm_control_plane.Cluster.Validation.{holds_memory}
use aegis_llm_control_plane.Cluster.Topology.{matches_topology_requirement}
use aegis_llm_control_plane.Cluster.Store.{
  Store, reserve, place, restore, unassign, is_schedulable, is_release_target, commit_placement,
  release_placement,
}
use aegis_llm_control_plane.Cluster.Store.Commit.{IsCommittable, committed, commit_placement_ok}
use aegis_llm_control_plane.Cluster.Store.Release.{IsReleasable, released, release_placement_ok}
use aegis_llm_control_plane.Cluster.Store.Valid.{IsWellFormed, available-le-total}
use aegis_llm_control_plane.Cluster.Store.Accounting.{
  IsAccounted, held-holding, held-le-reserved, reserve_available, restore_available,
}

schedulable_waiting :
    (st : WorkloadState) → is_schedulable st ≡ true → (st ≡ "PENDING") ⊎ (st ≡ "QUEUED")
schedulable_waiting st h = ground (arith, eq_iff st "PENDING", eq_iff st "QUEUED")

holds_memory_states :
    (st : WorkloadState) → holds_memory st ≡ true → (st ≡ "PLACED") ⊎ (st ≡ "RUNNING")
holds_memory_states st h = ground (arith, eq_iff st "PLACED", eq_iff st "RUNNING")

release_target_states :
    (st : WorkloadState)
    → is_release_target st ≡ true
    → (st ≡ "QUEUED") ⊎ ((st ≡ "RECOVERING") ⊎ (st ≡ "FAILED"))
release_target_states st h =
    ground (arith, eq_iff st "QUEUED", eq_iff st "RECOVERING", eq_iff st "FAILED")

module _ {F : Type 0} where
  -- One entry of each map is written, and every other is as it was.
  pub record Writes (s s' : Store F) (workload_id worker_id : String) (k' : Workload F)
      (w' : Worker F) : Type 0 where
    pub workloads :
        (id : String)
        → lookup id s'.workloads ≡ (if workload_id == id then some k' else lookup id s.workloads)
    pub workers :
        (id : String)
        → lookup id s'.workers ≡ (if worker_id == id then some w' else lookup id s.workers)

  -- The second worker is the first but for what is available and for the count.
  abbrev pub SameButLoad : Worker F → Worker F → Type 0
  SameButLoad w w' =
      record w' {
        available_memory_mb = w.available_memory_mb;
        active_workload_count = w.active_workload_count;
      }
      ≡ w

  -- A waiting workload went onto a healthy worker that had the room, which pays for all of it.
  pub record IsTaken (s s' : Store F) (workload_id worker_id : String) (k k' : Workload F)
      (w w' : Worker F) : Type 0 where
    pub found_workload : lookup workload_id s.workloads ≡ some k
    pub found_worker : lookup worker_id s.workers ≡ some w
    pub waiting : (k.state ≡ "PENDING") ⊎ (k.state ≡ "QUEUED")
    pub healthy : w.state ≡ "HEALTHY"
    pub topology : matches_topology_requirement k w ≡ true
    pub placed : k' ≡ record k { assigned_worker_id = worker_id; state = "PLACED" }
    pub memory : w'.available_memory_mb + k.required_memory_mb ≡ w.available_memory_mb
    pub count : w'.active_workload_count ≡ wrap_int (w.active_workload_count +ℤ pos 1)
    pub rest : SameButLoad w w'
    pub writes : Writes s s' workload_id worker_id k' w'

  -- A workload that held memory left its worker, which has all of it back.
  pub record IsReturned (s s' : Store F) (workload_id : String) (next : WorkloadState)
      (k k' : Workload F) (w w' : Worker F) : Type 0 where
    pub found_workload : lookup workload_id s.workloads ≡ some k
    pub found_worker : lookup k.assigned_worker_id s.workers ≡ some w
    pub holding : (k.state ≡ "PLACED") ⊎ (k.state ≡ "RUNNING")
    pub target : (next ≡ "QUEUED") ⊎ ((next ≡ "RECOVERING") ⊎ (next ≡ "FAILED"))
    pub freed : k' ≡ record k { assigned_worker_id = ""; state = next }
    pub memory : w'.available_memory_mb ≡ w.available_memory_mb + k.required_memory_mb
    pub rest : SameButLoad w w'
    pub writes : Writes s s' workload_id k.assigned_worker_id k' w'

  insert-Writes :
      (s : Store F) (workload_id worker_id : String) (k k' : Workload F) (w w' : Worker F)
      → k.id ≡ workload_id
      → w.id ≡ worker_id
      → Writes s
          (record { workers = insert w.id w' s.workers; workloads = insert k.id k' s.workloads })
          workload_id
          worker_id
          k'
          w'
  insert-Writes s workload_id worker_id k k' w w' ek ew = record {
    workloads = λ id. rw (sym ek) (lookup-insert k.id id k' s.workloads);
    workers = λ id. rw (sym ew) (lookup-insert w.id id w' s.workers);
  }

module _ {F : Type 0} ⦃fl : Float64 F⦄ where
  committed-IsTaken :
      (s : Store F) (workload_id worker_id : String) (k : Workload F) (w : Worker F)
      → IsWellFormed s
      → IsCommittable s workload_id worker_id k w
      → IsTaken s (committed k w s) workload_id worker_id k (place w.id k) w (reserve k w)
  committed-IsTaken s workload_id worker_id k w v c =
      let good = v.workers worker_id w c.found_worker in
      let fine = v.workloads workload_id k c.found_workload in
      let bound = available-le-total w good.valid in
      record {
        found_workload = c.found_workload;
        found_worker = c.found_worker;
        waiting = schedulable_waiting k.state c.schedulable;
        healthy = c.healthy;
        topology = c.topology;
        placed = ap (λ id. place id k) good.own_id;
        memory = reserve_available k w c.room (omega (arith, good.fits));
        count = refl;
        rest = refl;
        writes =
            insert-Writes s workload_id worker_id k (place w.id k) w (reserve k w) fine.own_id
              good.own_id;
      }

  released-IsReturned :
      (s : Store F) (workload_id : String) (next : WorkloadState) (k : Workload F) (w : Worker F)
      → IsWellFormed s
      → IsAccounted s
      → IsReleasable s workload_id next k w
      → IsReturned s (released next k w s) workload_id next k (unassign next k) w (restore k w)
  released-IsReturned s workload_id next k w v acc c =
      let good = v.workers k.assigned_worker_id w c.found_worker in
      let fine = v.workloads workload_id k c.found_workload in
      let bound = available-le-total w good.valid in
      let found = lookup_own s.workloads k fine.own_id c.found_workload in
      let mine = held-holding k c.holding k.assigned_worker_id in
      let self = eq_refl k.assigned_worker_id in
      let fits = held-le-reserved k.assigned_worker_id k s.workloads found in
      let room = acc k.assigned_worker_id w c.found_worker in
      record {
        found_workload = c.found_workload;
        found_worker = c.found_worker;
        holding = holds_memory_states k.state c.holding;
        target = release_target_states next c.target;
        freed = refl;
        memory = restore_available k w bound good.fits (ground arith);
        rest = refl;
        writes =
            insert-Writes s workload_id k.assigned_worker_id k (unassign next k) w (restore k w)
              fine.own_id good.own_id;
      }

  -- If a commit succeeds in a well-formed store, then the workload stood in the store, PENDING or
  -- QUEUED, and the worker, HEALTHY and of a fitting topology. Afterwards the workload is assigned
  -- to the worker and PLACED, and the same otherwise; what the worker has available and the
  -- workload's whole required memory make up what the worker had available; its count is one more,
  -- as an int; and every other field, worker and workload is as it was.
  pub commit_placement-IsTaken :
      (s : Store F) (ctx : Option Error) (workload_id worker_id : String) (k' : Workload F)
      → IsWellFormed s
      → (commit_placement ctx workload_id worker_id s).0 ≡ ok k'
      → (k : Workload F) × (w : Worker F) × (w' : Worker F) × IsTaken s
          (commit_placement ctx workload_id worker_id s).1
          workload_id
          worker_id
          k
          k'
          w
          w'
  commit_placement-IsTaken s ctx workload_id worker_id k' v h =
      let (k, w, c, p, q) = commit_placement_ok s ctx workload_id worker_id k' h in
      (
        k,
        w,
        reserve k w,
        subst (λ y. IsTaken s y workload_id worker_id k k' w (reserve k w)) (sym q)
            (subst (λ x. IsTaken s (committed k w s) workload_id worker_id k x w (reserve k w))
              (sym p) (committed-IsTaken s workload_id worker_id k w v c)),
      )

  -- If a release succeeds in a well-formed store in which what is held and what is free fit every
  -- worker's memory, then the workload stood in the store, PLACED or RUNNING, its worker too, and
  -- the state asked for is QUEUED, RECOVERING or FAILED. Afterwards the workload is assigned to
  -- nobody and in that state, and the same otherwise; the worker has the workload's whole required
  -- memory available in addition to what it had; and every other field but the worker's count, and
  -- every other worker and workload, is as it was.
  pub release_placement-IsReturned :
      (s : Store F) (ctx : Option Error) (workload_id : String) (next : WorkloadState)
      (k' : Workload F)
      → IsWellFormed s
      → IsAccounted s
      → (release_placement ctx workload_id next s).0 ≡ ok k'
      → (k : Workload F) × (w : Worker F) × (w' : Worker F) × IsReturned s
          (release_placement ctx workload_id next s).1
          workload_id
          next
          k
          k'
          w
          w'
  release_placement-IsReturned s ctx workload_id next k' v acc h =
      let (k, w, c, p, q) = release_placement_ok s ctx workload_id next k' h in
      (
        k,
        w,
        restore k w,
        subst (λ y. IsReturned s y workload_id next k k' w (restore k w)) (sym q)
            (subst (λ x. IsReturned s (released next k w s) workload_id next k x w (restore k w))
              (sym p) (released-IsReturned s workload_id next k w v acc c)),
      )
