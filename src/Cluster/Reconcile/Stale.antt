-- ===== src/Cluster/Reconcile/Stale.antt =====
-- internal/cluster/reconcile.go: a worker of the snapshot written back after a commit.
use aegis_llm_control_plane.Base.{
  ◌+◌, ◌<◌, ◌≡◌, refl, sym, ◌∙◌, ap, subst, String, eq_refl, [], ◌∷◌, none, some, arith,
}
use aegis_llm_control_plane.Base.Dict.{lookup, insert, lookup-insert_own, total}
use aegis_llm_control_plane.Base.Float.{Float64}
use aegis_llm_control_plane.Cluster.Types.{Worker, Workload, WorkerState}
use aegis_llm_control_plane.Cluster.Validation.{validate_worker, validate_workload, validate_demand}
use aegis_llm_control_plane.Cluster.Store.{Store, reserve, place, commit_placement, update_worker}
use aegis_llm_control_plane.Cluster.Store.Commit.{
  IsCommittable, committed, commit_placement_succeeds,
}
use aegis_llm_control_plane.Cluster.Store.Valid.{IsWellFormed}
use aegis_llm_control_plane.Cluster.Store.Accounting.{
  held, reserved, reserved-insert, schedulable-held, held-place,
}
use aegis_llm_control_plane.Shared.{Turn, call}
use aegis_llm_control_plane.Cluster.Reconcile.{write_state}

module _ {F : Type 0} ⦃fl : Float64 F⦄ where
  -- A turn in which another goroutine commits a workload to a worker.
  abbrev pub committing : String → String → Turn F
  committing workload_id worker_id = record {
    act = λ y. (commit_placement none workload_id worker_id y).1;
    ctx = none;
  }

  needs_memory : (k : Workload F) → validate_workload k ≡ none → 0 < k.required_memory_mb
  unfolding validate_workload validate_demand
  needs_memory k h = ground arith

  update_found :
      (s : Store F) (w old : Worker F)
      → validate_worker w ≡ none
      → lookup w.id s.workers ≡ some old
      → (update_worker none w s).1 ≡ record s { workers = insert w.id w s.workers }
  unfolding update_worker
  update_found s w old valid found = rw (valid, found)

  state_valid :
      (w : Worker F) (st : WorkerState)
      → validate_worker w ≡ none
      → validate_worker (record w { state = st }) ≡ none
  unfolding validate_worker
  state_valid w st h = h

  -- If, in a well-formed store, a worker is written back as it was read, with a new state and a
  -- live context, after another goroutine committed a workload to it that meets every demand, the
  -- workload stands as placed there, the worker has the memory and the count of before the commit,
  -- and what is held of it together with what it has available exceeds what these were before the
  -- commit by the workload's required memory, which is not 0.
  pub write_state_stale :
      (s : Store F) (k : Workload F) (w : Worker F) (st : WorkerState)
      → IsWellFormed s
      → IsCommittable s k.id w.id k w
      → let s' =
          (write_state w st (record { store = s; turns = committing k.id w.id ∷ [] })).1.store in
        (lookup k.id s'.workloads ≡ some (place w.id k))
        × (lookup w.id s'.workers ≡ some (record w { state = st }))
        × (reserved w.id s' + w.available_memory_mb
            ≡ reserved w.id s + w.available_memory_mb + k.required_memory_mb)
        × (0 < k.required_memory_mb)
  unfolding call
  write_state_stale s k w st v c =
      let good = v.workers w.id w c.found_worker in
      let fine = v.workloads k.id k c.found_workload in
      let act = ap (λ p. p.1) (commit_placement_succeeds s k.id w.id k w c) in
      let stored =
        update_found (committed k w s) (record w { state = st }) (reserve k w)
          (state_valid w st good.valid)
          (lookup-insert_own w.id w.id (reserve k w) s.workers refl) in
      let whole = ap (λ y. (update_worker none (record w { state = st }) y).1) act ∙ stored in
      let more = reserved-insert w.id k (place w.id k) s.workloads c.found_workload in
      let need = needs_memory k fine.valid in
      let mine = held-place w.id w.id k in
      let zero = schedulable-held w.id k c.schedulable in
      let self = eq_refl w.id in
      let size : total (held w.id) (insert k.id (place w.id k) s.workloads) + w.available_memory_mb
          ≡ reserved w.id s + w.available_memory_mb + k.required_memory_mb =
        ground arith in
      (
        ap (λ y. lookup k.id y.workloads) whole
            ∙ lookup-insert_own k.id k.id (place w.id k) s.workloads refl,
        ap (λ y. lookup w.id y.workers) whole
            ∙ lookup-insert_own w.id w.id (record w { state = st }) (committed k w s).workers refl,
        subst
            (λ y.
              reserved w.id y + w.available_memory_mb
              ≡ reserved w.id s + w.available_memory_mb + k.required_memory_mb)
            (sym whole) size,
        need,
      )
