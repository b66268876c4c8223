-- ===== src/Cluster/Store/Accounting/Traces.antt =====
-- internal/cluster/memory_store.go: sequences of operations, from the empty store on.
use aegis_llm_control_plane.Base.{◌+◌, ◌≤◌, ◌<◌, ◌^◌, ◌≡◌, String, false, Option, some, arith}
use aegis_llm_control_plane.Base.Dict.{lookup, insert, Holds-insert, measure, total-insert}
use aegis_llm_control_plane.Base.Float.{Float64}
use aegis_llm_control_plane.Errors.{Error}
use aegis_llm_control_plane.Cluster.Types.{Worker, Workload, WorkloadState}
use aegis_llm_control_plane.Cluster.Validation.{holds_memory}
use aegis_llm_control_plane.Cluster.Store.{
  Store, new_in_memory_state_store, commit_placement, release_placement, register_worker,
  update_worker, create_workload, update_workload,
}
use aegis_llm_control_plane.Cluster.Store.Valid.{
  IsWellFormed, available-le-total, commit_placement-IsWellFormed, release_placement-IsWellFormed,
  register_worker-IsWellFormed, update_worker-IsWellFormed, create_workload-IsWellFormed,
  update_workload-IsWellFormed,
}
use aegis_llm_control_plane.Cluster.Store.Accounting.{
  held, reserved, IsAccounted, commit_placement-IsAccounted, release_placement-IsAccounted,
}

module _ {F : Type 0} ⦃fl : Float64 F⦄ where
  -- What the control plane does to its store, one method call at a time. Writes of whole entries are
  -- bounded by what their callers do: a new worker holds no workload yet, a new workload holds no
  -- memory, a report on a worker frees none, and a workload's progress takes none.
  pub data Step (s : Store F) : Store F → Type 0 where
    commits :
        (ctx : Option Error) (workload_id worker_id : String)
        → Step s (commit_placement ctx workload_id worker_id s).1
    releases :
        (ctx : Option Error) (workload_id : String) (next : WorkloadState)
        → Step s (release_placement ctx workload_id next s).1
    registers :
        (ctx : Option Error) (w : Worker F)
        → w.total_memory_mb < 2 ^ 64
        → reserved w.id s ≡ 0
        → Step s (register_worker ctx w s).1
    creates :
        (ctx : Option Error) (k : Workload F)
        → holds_memory k.state ≡ false
        → Step s (create_workload ctx k s).1
    reports :
        (ctx : Option Error) (old w : Worker F)
        → lookup w.id s.workers ≡ some old
        → w.total_memory_mb ≡ old.total_memory_mb
        → w.available_memory_mb ≤ old.available_memory_mb
        → Step s (update_worker ctx w s).1
    advances :
        (ctx : Option Error) (old k : Workload F)
        → lookup k.id s.workloads ≡ some old
        → ((id : String) → held id k ≤ held id old)
        → Step s (update_workload ctx k s).1

  pub data Reach (s : Store F) : Store F → Type 0 where
    here : Reach s s
    more : {t u : Store F} → Reach s t → Step t u → Reach s u

  pub record IsSound (s : Store F) : Type 0 where
    pub well_formed : IsWellFormed s
    pub accounted : IsAccounted s

  put_worker-IsAccounted :
      (s : Store F) (w : Worker F)
      → reserved w.id s + w.available_memory_mb ≤ w.total_memory_mb
      → IsAccounted s
      → IsAccounted (record s { workers = insert w.id w s.workers })
  put_worker-IsAccounted s w h acc =
      Holds-insert (λ id u. reserved id s + u.available_memory_mb ≤ u.total_memory_mb) w.id w
        s.workers acc h

  put_workload-IsAccounted :
      (s : Store F) (k : Workload F)
      → ((id : String) → held id k ≤ measure (held id) (lookup k.id s.workloads))
      → IsAccounted s
      → IsAccounted (record s { workloads = insert k.id k s.workloads })
  put_workload-IsAccounted s k h acc id u found =
      omega (arith, total-insert (held id) k.id k s.workloads, h id, acc id u found)

  register_worker-IsAccounted :
      (s : Store F) (ctx : Option Error) (w : Worker F)
      → reserved w.id s ≡ 0
      → IsAccounted s
      → IsAccounted (register_worker ctx w s).1
  unfolding register_worker
  register_worker-IsAccounted s ctx w h acc =
      ground (arith, put_worker-IsAccounted s w, available-le-total w)

  update_worker-IsAccounted :
      (s : Store F) (ctx : Option Error) (old w : Worker F)
      → lookup w.id s.workers ≡ some old
      → w.total_memory_mb ≡ old.total_memory_mb
      → w.available_memory_mb ≤ old.available_memory_mb
      → IsAccounted s
      → IsAccounted (update_worker ctx w s).1
  unfolding update_worker
  update_worker-IsAccounted s ctx old w found size less acc =
      ground (arith, put_worker-IsAccounted s w, acc w.id old)

  held_of_idle : (id : String) (k : Workload F) → holds_memory k.state ≡ false → held id k ≡ 0
  unfolding held
  held_of_idle id k h = rw h

  create_workload-IsAccounted :
      (s : Store F) (ctx : Option Error) (k : Workload F)
      → holds_memory k.state ≡ false
      → IsAccounted s
      → IsAccounted (create_workload ctx k s).1
  unfolding create_workload
  create_workload-IsAccounted s ctx k idle acc =
      let put = put_workload-IsAccounted s k (λ id. omega (arith, held_of_idle id k idle)) acc in
      ground (arith, put)

  update_workload-IsAccounted :
      (s : Store F) (ctx : Option Error) (old k : Workload F)
      → lookup k.id s.workloads ≡ some old
      → ((id : String) → held id k ≤ held id old)
      → IsAccounted s
      → IsAccounted (update_workload ctx k s).1
  unfolding update_workload
  update_workload-IsAccounted s ctx old k found less acc =
      let put = put_workload-IsAccounted s k (λ id. rw found (less id)) acc in ground (arith, put)

  old-fits :
      (s : Store F) (old w : Worker F)
      → IsWellFormed s
      → lookup w.id s.workers ≡ some old
      → w.total_memory_mb ≡ old.total_memory_mb
      → w.total_memory_mb < 2 ^ 64
  old-fits s old w v found size = omega (arith, (v.workers w.id old found).fits)

  pub Step-IsSound : {s t : Store F} → Step s t → IsSound s → IsSound t
  Step-IsSound {s = s} (commits ctx a b) h = record {
    well_formed = commit_placement-IsWellFormed s ctx a b h.well_formed;
    accounted = commit_placement-IsAccounted s ctx a b h.well_formed h.accounted;
  }
  Step-IsSound {s = s} (releases ctx a next) h = record {
    well_formed = release_placement-IsWellFormed s ctx a next h.well_formed;
    accounted = release_placement-IsAccounted s ctx a next h.well_formed h.accounted;
  }
  Step-IsSound {s = s} (registers ctx w fits free) h = record {
    well_formed = register_worker-IsWellFormed s ctx w fits h.well_formed;
    accounted = register_worker-IsAccounted s ctx w free h.accounted;
  }
  Step-IsSound {s = s} (creates ctx k idle) h = record {
    well_formed = create_workload-IsWellFormed s ctx k h.well_formed;
    accounted = create_workload-IsAccounted s ctx k idle h.accounted;
  }
  Step-IsSound {s = s} (reports ctx old w found size less) h = record {
    well_formed =
        update_worker-IsWellFormed s ctx w (old-fits s old w h.well_formed found size)
          h.well_formed;
    accounted = update_worker-IsAccounted s ctx old w found size less h.accounted;
  }
  Step-IsSound {s = s} (advances ctx old k found less) h = record {
    well_formed = update_workload-IsWellFormed s ctx k h.well_formed;
    accounted = update_workload-IsAccounted s ctx old k found less h.accounted;
  }

  new-IsSound : IsSound (new_in_memory_state_store {F = F})
  unfolding lookup
  new-IsSound = record {
    well_formed = record { workers = λ k v e. cc; workloads = λ k v e. cc };
    accounted = λ k v e. cc;
  }

  Reach-from-IsSound : {s t : Store F} → Reach s t → IsSound s → IsSound t
  Reach-from-IsSound here h = h
  Reach-from-IsSound (more r st) h = Step-IsSound st (Reach-from-IsSound r h)

  -- In every state that commits, releases, registrations, creations, reports and progress (with the
  -- bounds of Step on what is written) reach from the empty store, the memory of the workloads placed or
  -- running on a worker and the worker's available memory fit its total memory together, and every
  -- entry passes its check and stands under its own ID.
  pub Reach-IsSound : {s : Store F} → Reach new_in_memory_state_store s → IsSound s
  Reach-IsSound r = Reach-from-IsSound r new-IsSound
