-- ===== src/Cluster/Store/Contention.antt =====
-- internal/cluster/memory_store.go: two commits for one worker, and a commit and its release.
use aegis_llm_control_plane.Base.{
  ◌+◌, ◌≤◌, ◌<◌, ◌^◌, ◌≡◌, ◌≢◌, refl, ap, ◌∙◌, sym, subst, String, true, eq_iff, eq_refl, Option,
  none, some, arith, ok, text_or, text_eq,
}
use aegis_llm_control_plane.Base.Dict.{lookup, lookup-insert, lookup-insert_own}
use aegis_llm_control_plane.Base.Int.{pos, wrap_int_suc, wrap_int_back, ◌≤ℤ◌}
use aegis_llm_control_plane.Base.Float.{Float64}
use aegis_llm_control_plane.Errors.{Error}
use aegis_llm_control_plane.Cluster.Types.{Worker, Workload, WorkloadState}
use aegis_llm_control_plane.Cluster.Validation.{
  validate_worker, validate_workload, validate_lifecycle, known_state,
}
use aegis_llm_control_plane.Cluster.Store.{
  Store, reserve, place, restore, unassign, is_release_target, commit_placement, release_placement,
}
use aegis_llm_control_plane.Cluster.Store.Commit.{
  IsCommittable, committed, commit_placement_ok, commit_placement_succeeds,
}
use aegis_llm_control_plane.Cluster.Store.Release.{IsReleasable, release_placement_succeeds}
use aegis_llm_control_plane.Cluster.Store.Valid.{
  IsWellFormed, IsGoodWorker, IsGoodWorkload, available-le-total, validate_demand_congr,
}
use aegis_llm_control_plane.Cluster.Store.Accounting.{target_holds}

target_known : (st : WorkloadState) → is_release_target st ≡ true → known_state st ≡ true
target_known st =
    text_or (λ t. known_state t ≡ true) st "QUEUED" _ refl
      (text_or (λ t. known_state t ≡ true) st "RECOVERING" _ refl
        (text_eq (λ t. known_state t ≡ true) st "FAILED" refl))

module _ {F : Type 0} ⦃fl : Float64 F⦄ where
  after_reserve :
      (s : Store F) (id : String) (k k' : Workload F) (w w' : Worker F)
      → w.id ≡ id
      → lookup id (committed k w s).workers ≡ some w'
      → k.required_memory_mb ≤ w.available_memory_mb
      → w.available_memory_mb < 2 ^ 64
      → k'.required_memory_mb ≤ w'.available_memory_mb
      → k.required_memory_mb + k'.required_memory_mb ≤ w.available_memory_mb
  after_reserve s id k k' w w' own found room small room' =
      ground (arith, eq_iff w.id id, lookup-insert w.id id (reserve k w) s.workers)

  -- If two commits to one worker succeed, one after the other, the worker had room for both
  -- workloads together.
  pub commit_placement_twice :
      (s : Store F) (ctx ctx' : Option Error) (first second worker_id : String) (a b : Workload F)
      → IsWellFormed s
      → (commit_placement ctx first worker_id s).0 ≡ ok a
      → (commit_placement ctx' second worker_id (commit_placement ctx first worker_id s).1).0 ≡ ok b
      → (w : Worker F) × (lookup worker_id s.workers ≡ some w)
        × (a.required_memory_mb + b.required_memory_mb ≤ w.available_memory_mb)
  commit_placement_twice s ctx ctx' first second worker_id a b v ea eb =
      let (k, w, c, pa, q) = commit_placement_ok s ctx first worker_id a ea in
      let (k', w', c', pb, _) =
        commit_placement_ok (commit_placement ctx first worker_id s).1 ctx' second worker_id b eb in
      let good = v.workers worker_id w c.found_worker in
      let bound = available-le-total w good.valid in
      let both =
        after_reserve s worker_id k k' w w' good.own_id
          (subst (λ t. lookup worker_id t.workers ≡ some w') q c'.found_worker) c.room
          (omega (arith, good.fits)) c'.room in
      let need = ap (λ x. x.required_memory_mb) pa in
      let need' = ap (λ x. x.required_memory_mb) pb in
      (w, c.found_worker, omega (arith, both, need, need'))

  restore-reserve :
      (k : Workload F) (w : Worker F) (id : String)
      → IsGoodWorker id w
      → k.required_memory_mb ≤ w.available_memory_mb
      → pos 0 ≤ℤ w.active_workload_count
      → w.active_workload_count ≤ℤ pos (2 ^ 62)
      → restore (place w.id k) (reserve k w) ≡ w
  restore-reserve k w id good room low high =
      let bound = available-le-total w good.valid in
      let fits = good.fits in
      let memory : (restore (place w.id k) (reserve k w)).available_memory_mb
          ≡ w.available_memory_mb =
        ground arith in
      let count : (restore (place w.id k) (reserve k w)).active_workload_count
          ≡ w.active_workload_count =
        ground
          (arith, wrap_int_suc w.active_workload_count, wrap_int_back w.active_workload_count) in
      λ i. record w { available_memory_mb = memory i; active_workload_count = count i }

  worker_named : (w : Worker F) → validate_worker w ≡ none → w.id ≢ ""
  unfolding validate_worker
  worker_named w h = ground (arith, eq_iff w.id "")

  unassign_valid :
      (id : String) (k : Workload F) (next : WorkloadState) (worker_id : String)
      → IsGoodWorkload id k
      → is_release_target next ≡ true
      → validate_workload (unassign next (place worker_id k)) ≡ none
  unfolding validate_workload validate_lifecycle
  unassign_valid id k next worker_id good target =
      let known = target_known next target in
      let free = target_holds next target in
      let valid = good.valid in ground (arith, validate_demand_congr k "" next, known, free)

  placed-IsReleasable :
      (s : Store F) (workload_id worker_id : String) (next : WorkloadState) (k : Workload F)
      (w : Worker F)
      → IsWellFormed s
      → IsCommittable s workload_id worker_id k w
      → is_release_target next ≡ true
      → restore (place w.id k) (reserve k w) ≡ w
      → IsReleasable (committed k w s) workload_id next (place w.id k) (reserve k w)
  placed-IsReleasable s workload_id worker_id next k w v c target same =
      let good = v.workers worker_id w c.found_worker in
      let fine = v.workloads workload_id k c.found_workload in
      record {
        found_workload = ground (
          arith,
          lookup-insert k.id workload_id (place w.id k) s.workloads,
          fine.own_id,
          eq_iff k.id workload_id,
        );
        assigned = worker_named w good.valid;
        found_worker =
            ground (arith, lookup-insert w.id w.id (reserve k w) s.workers, eq_refl w.id);
        holding = refl;
        target = target;
        valid_worker = subst (λ x. validate_worker x ≡ none) (sym same) good.valid;
        valid_workload = unassign_valid workload_id k next w.id fine target;
      }

  -- In a well-formed store, a commit that its demands allow, followed by a release to QUEUED,
  -- RECOVERING or FAILED, both with a live context, succeeds and gives the worker back as it was, if
  -- the worker's count of workloads is between 0 and 2^62; the workload is then assigned to nobody,
  -- in the state that the release was told.
  pub release_placement-commit_placement :
      (s : Store F) (workload_id worker_id : String) (next : WorkloadState) (k : Workload F)
      (w : Worker F)
      → IsWellFormed s
      → IsCommittable s workload_id worker_id k w
      → is_release_target next ≡ true
      → pos 0 ≤ℤ w.active_workload_count
      → w.active_workload_count ≤ℤ pos (2 ^ 62)
      → let p =
          release_placement none workload_id next
            (commit_placement none workload_id worker_id s).1 in
        (p.0 ≡ ok (unassign next k))
        × (lookup worker_id p.1.workers ≡ some w)
        × (lookup workload_id p.1.workloads ≡ some (unassign next k))
  release_placement-commit_placement s workload_id worker_id next k w v c target low high =
      let good = v.workers worker_id w c.found_worker in
      let fine = v.workloads workload_id k c.found_workload in
      let same = restore-reserve k w worker_id good c.room low high in
      let first = ap (λ x. x.1) (commit_placement_succeeds s workload_id worker_id k w c) in
      let second =
        release_placement_succeeds (committed k w s) workload_id next (place w.id k) (reserve k w)
          (placed-IsReleasable s workload_id worker_id next k w v c target same) in
      let whole = ap (release_placement none workload_id next) first ∙ second in
      (
        ap (λ x. x.0) whole,
        ap (λ x. lookup worker_id x.1.workers) whole
            ∙ lookup-insert_own w.id worker_id (restore (place w.id k) (reserve k w))
                (committed k w s).workers good.own_id
            ∙ ap some same,
        ap (λ x. lookup workload_id x.1.workloads) whole
            ∙ lookup-insert_own k.id workload_id (unassign next k) (committed k w s).workloads
                fine.own_id,
      )
