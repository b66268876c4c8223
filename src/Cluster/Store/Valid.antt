-- ===== src/Cluster/Store/Valid.antt =====
-- internal/cluster/memory_store.go: the entries, their IDs and their checks, under every write.
use aegis_llm_control_plane.Base.{
  ◌≡◌, refl, ◌<◌, ◌^◌, ◌≤◌, String, Option, none, arith, Result-cases, inl, inr,
}
use aegis_llm_control_plane.Base.Dict.{insert, Holds, Holds-insert}
use aegis_llm_control_plane.Base.Float.{Float64}
use aegis_llm_control_plane.Errors.{Error}
use aegis_llm_control_plane.Cluster.Types.{Worker, Workload, WorkloadState}
use aegis_llm_control_plane.Cluster.Validation.{
  validate_worker, validate_workload, validate_demand, validate_lifecycle,
}
use aegis_llm_control_plane.Cluster.Store.{
  Store, reserve, place, restore, unassign, commit_placement, release_placement, register_worker,
  update_worker, create_workload, update_workload,
}
use aegis_llm_control_plane.Cluster.Store.Commit.{
  IsCommittable, committed, commit_placement_ok, commit_placement_atomic,
}
use aegis_llm_control_plane.Cluster.Store.Release.{
  IsReleasable, released, release_placement_ok, release_placement_atomic,
}

module _ {F : Type 0} ⦃fl : Float64 F⦄ where
  -- `TotalMemoryMB` is a uint64.
  pub record IsGoodWorker (id : String) (w : Worker F) : Type 0 where
    pub own_id : w.id ≡ id
    pub valid : validate_worker w ≡ none
    pub fits : w.total_memory_mb < 2 ^ 64

  pub record IsGoodWorkload (id : String) (k : Workload F) : Type 0 where
    pub own_id : k.id ≡ id
    pub valid : validate_workload k ≡ none

  pub record IsWellFormed (s : Store F) : Type 0 where
    pub workers : Holds IsGoodWorker s.workers
    pub workloads : Holds IsGoodWorkload s.workloads

  pub available-le-total :
      (w : Worker F) → validate_worker w ≡ none → w.available_memory_mb ≤ w.total_memory_mb
  unfolding validate_worker
  available-le-total w h = ground arith

  reserve-IsGoodWorker :
      (id : String) (k : Workload F) (w : Worker F)
      → IsGoodWorker id w
      → k.required_memory_mb ≤ w.available_memory_mb
      → IsGoodWorker id (reserve k w)
  unfolding validate_worker
  reserve-IsGoodWorker id k w g room = ground arith

  -- A check of a workload reads its state and its worker only at the end.
  pub validate_demand_congr :
      (k : Workload F) (worker_id : String) (next : WorkloadState)
      → validate_demand (record k { assigned_worker_id = worker_id; state = next })
        ≡ validate_demand k
  unfolding validate_demand
  validate_demand_congr k worker_id next = refl

  validate_lifecycle-place :
      (k : Workload F) (w : Worker F)
      → validate_lifecycle k ≡ none
      → validate_worker w ≡ none
      → validate_lifecycle (place w.id k) ≡ none
  unfolding validate_lifecycle validate_worker
  validate_lifecycle-place k w h v = ground arith

  place-IsGoodWorkload :
      (id : String) (k : Workload F) (w : Worker F)
      → IsGoodWorkload id k
      → validate_worker w ≡ none
      → IsGoodWorkload id (place w.id k)
  unfolding validate_workload
  place-IsGoodWorkload id k w g v =
      ground (arith, validate_demand_congr k w.id "PLACED", validate_lifecycle-place k w)

  committed-IsWellFormed :
      (s : Store F) (workload_id worker_id : String) (k : Workload F) (w : Worker F)
      → IsCommittable s workload_id worker_id k w
      → IsWellFormed s
      → IsWellFormed (committed k w s)
  committed-IsWellFormed s workload_id worker_id k w c v =
      let good = v.workers worker_id w c.found_worker in
      let fine = v.workloads workload_id k c.found_workload in
      record {
        workers = Holds-insert IsGoodWorker w.id (reserve k w) s.workers v.workers (
            reserve-IsGoodWorker w.id k w
              (record { own_id = refl; valid = good.valid; fits = good.fits }) c.room);
        workloads = Holds-insert IsGoodWorkload k.id (place w.id k) s.workloads v.workloads (
            place-IsGoodWorkload k.id k w (record { own_id = refl; valid = fine.valid })
              good.valid);
      }

  -- A commit keeps the state well formed, whether it succeeds or not.
  pub commit_placement-IsWellFormed :
      (s : Store F) (ctx : Option Error) (workload_id worker_id : String)
      → IsWellFormed s
      → IsWellFormed (commit_placement ctx workload_id worker_id s).1
  commit_placement-IsWellFormed s ctx workload_id worker_id v =
      elim (Result-cases (commit_placement ctx workload_id worker_id s).0) [
        | inl (k', e) ↦
            let (k, w, c, _, q) = commit_placement_ok s ctx workload_id worker_id k' e in
            rw q (committed-IsWellFormed s workload_id worker_id k w c v)
        | inr (x, e) ↦ rw (commit_placement_atomic s ctx workload_id worker_id x e) v
      ]

  released-IsWellFormed :
      (s : Store F) (workload_id : String) (next : WorkloadState) (k : Workload F) (w : Worker F)
      → IsReleasable s workload_id next k w
      → IsWellFormed s
      → IsWellFormed (released next k w s)
  released-IsWellFormed s workload_id next k w c v =
      let good = v.workers k.assigned_worker_id w c.found_worker in
      record {
        workers =
            Holds-insert IsGoodWorker w.id (restore k w) s.workers v.workers
              (record { own_id = refl; valid = c.valid_worker; fits = good.fits });
        workloads =
            Holds-insert IsGoodWorkload k.id (unassign next k) s.workloads v.workloads
              (record { own_id = refl; valid = c.valid_workload });
      }

  -- So does a release.
  pub release_placement-IsWellFormed :
      (s : Store F) (ctx : Option Error) (workload_id : String) (next : WorkloadState)
      → IsWellFormed s
      → IsWellFormed (release_placement ctx workload_id next s).1
  release_placement-IsWellFormed s ctx workload_id next v =
      elim (Result-cases (release_placement ctx workload_id next s).0) [
        | inl (k', e) ↦
            let (k, w, c, _, q) = release_placement_ok s ctx workload_id next k' e in
            rw q (released-IsWellFormed s workload_id next k w c v)
        | inr (x, e) ↦ rw (release_placement_atomic s ctx workload_id next x e) v
      ]

  put_worker-IsWellFormed :
      (s : Store F) (w : Worker F)
      → validate_worker w ≡ none
      → w.total_memory_mb < 2 ^ 64
      → IsWellFormed s
      → IsWellFormed (record s { workers = insert w.id w s.workers })
  put_worker-IsWellFormed s w g fits v = record {
    workers =
        Holds-insert IsGoodWorker w.id w s.workers v.workers
          (record { own_id = refl; valid = g; fits = fits });
    workloads = v.workloads;
  }

  put_workload-IsWellFormed :
      (s : Store F) (k : Workload F)
      → validate_workload k ≡ none
      → IsWellFormed s
      → IsWellFormed (record s { workloads = insert k.id k s.workloads })
  put_workload-IsWellFormed s k g v = record {
    workers = v.workers;
    workloads =
        Holds-insert IsGoodWorkload k.id k s.workloads v.workloads
          (record { own_id = refl; valid = g });
  }

  -- A write of a whole worker or workload, new or known, keeps it too, whatever its outcome.
  pub register_worker-IsWellFormed :
      (s : Store F) (ctx : Option Error) (w : Worker F)
      → w.total_memory_mb < 2 ^ 64
      → IsWellFormed s
      → IsWellFormed (register_worker ctx w s).1
  unfolding register_worker
  register_worker-IsWellFormed s ctx w fits v = ground (arith, put_worker-IsWellFormed s w)

  pub update_worker-IsWellFormed :
      (s : Store F) (ctx : Option Error) (w : Worker F)
      → w.total_memory_mb < 2 ^ 64
      → IsWellFormed s
      → IsWellFormed (update_worker ctx w s).1
  unfolding update_worker
  update_worker-IsWellFormed s ctx w fits v = ground (arith, put_worker-IsWellFormed s w)

  pub create_workload-IsWellFormed :
      (s : Store F) (ctx : Option Error) (k : Workload F)
      → IsWellFormed s
      → IsWellFormed (create_workload ctx k s).1
  unfolding create_workload
  create_workload-IsWellFormed s ctx k v = ground (arith, put_workload-IsWellFormed s k)

  pub update_workload-IsWellFormed :
      (s : Store F) (ctx : Option Error) (k : Workload F)
      → IsWellFormed s
      → IsWellFormed (update_workload ctx k s).1
  unfolding update_workload
  update_workload-IsWellFormed s ctx k v = ground (arith, put_workload-IsWellFormed s k)
