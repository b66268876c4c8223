-- ===== src/Cluster/Store/Accounting.antt =====
-- internal/cluster/memory_store.go: the memory of a worker against the workloads that hold it.
pub mod Traces
use aegis_llm_control_plane.Base.{
  ℕ, ◌+◌, ◌-◌, ◌≤◌, ◌<◌, ◌^◌, ◌≡◌, refl, sym, subst, String, true, false, ◌&&◌, ◌||◌, ◌==◌, eq_iff,
  eq_refl, Option, none, some, arith, ok, err, inl, inr, Result-cases, Bool-cases, text_eq, text_or,
  if◌then◌else◌,
}
use aegis_llm_control_plane.Base.Dict.{
  Dict, lookup, insert, lookup-insert, Holds, total, measure, total-insert, total-measure-le,
  lookup_own,
}
use aegis_llm_control_plane.Base.Float.{Float64}
use aegis_llm_control_plane.Errors.{Error}
use aegis_llm_control_plane.Cluster.Types.{Worker, Workload, WorkloadState}
use aegis_llm_control_plane.Cluster.Validation.{holds_memory, validate_worker}
use aegis_llm_control_plane.Cluster.Store.{
  Store, reserve, place, restore, unassign, is_schedulable, is_release_target, commit_placement,
  release_placement,
}
use aegis_llm_control_plane.Cluster.Store.Commit.{
  IsCommittable, committed, commit_placement_ok, commit_placement_atomic,
}
use aegis_llm_control_plane.Cluster.Store.Release.{
  IsReleasable, released, release_placement_ok, release_placement_atomic,
}
use aegis_llm_control_plane.Cluster.Store.Valid.{IsWellFormed, available-le-total}

abbrev HoldsNone : WorkloadState → Type 0
HoldsNone st = holds_memory st ≡ false

schedulable_holds : (st : WorkloadState) → is_schedulable st ≡ true → HoldsNone st
schedulable_holds st = text_or HoldsNone st "PENDING" _ refl (text_eq HoldsNone st "QUEUED" refl)

pub target_holds : (st : WorkloadState) → is_release_target st ≡ true → HoldsNone st
target_holds st =
    text_or HoldsNone st "QUEUED" _ refl
      (text_or HoldsNone st "RECOVERING" _ refl (text_eq HoldsNone st "FAILED" refl))

module _ {F : Type 0} where
  -- The memory that a workload holds of the worker with this ID.
  unfoldable pub held : String → Workload F → ℕ
  held id k = if holds_memory k.state && k.assigned_worker_id == id then k.required_memory_mb else 0

  -- The memory that all workloads hold of it.
  abbrev pub reserved : String → Store F → ℕ
  reserved id s = total (held id) s.workloads

  -- Of every worker, what is held and what is free fit its memory together.
  abbrev pub IsAccounted : Store F → Type 0
  IsAccounted s =
      Holds (λ id w. reserved id s + w.available_memory_mb ≤ w.total_memory_mb) s.workers

  pub schedulable-held :
      (id : String) (k : Workload F) → is_schedulable k.state ≡ true → held id k ≡ 0
  unfolding held
  schedulable-held id k h = rw (schedulable_holds k.state h)

  pub held-place :
      (id worker_id : String) (k : Workload F)
      → held id (place worker_id k) ≡ (if worker_id == id then k.required_memory_mb else 0)
  unfolding held
  held-place id worker_id k = refl

  target-held :
      (id : String) (k : Workload F) (next : WorkloadState)
      → is_release_target next ≡ true
      → held id (unassign next k) ≡ 0
  unfolding held
  target-held id k next h = rw (target_holds next h)

  pub held-holding :
      (k : Workload F)
      → holds_memory k.state ≡ true
      → (id : String) → held id k ≡ (if k.assigned_worker_id == id then k.required_memory_mb else 0)
  unfolding held
  held-holding k h id = rw h

  -- The reservations after a workload is written over its older version.
  pub reserved-insert :
      (id : String) (k k' : Workload F) (m : Dict (Workload F))
      → lookup k.id m ≡ some k
      → total (held id) (insert k.id k' m) + held id k ≡ total (held id) m + held id k'
  reserved-insert id k k' m e =
      subst
        (λ o.
          total (held id) (insert k.id k' m) + measure (held id) o ≡ total (held id) m + held id k')
        e (total-insert (held id) k.id k' m)

  pub reserve_available :
      (k : Workload F) (w : Worker F)
      → k.required_memory_mb ≤ w.available_memory_mb
      → w.available_memory_mb < 2 ^ 64
      → (reserve k w).available_memory_mb + k.required_memory_mb ≡ w.available_memory_mb
  reserve_available k w h b = omega arith

  pub restore_available :
      (k : Workload F) (w : Worker F)
      → w.available_memory_mb ≤ w.total_memory_mb
      → w.total_memory_mb < 2 ^ 64
      → k.required_memory_mb + w.available_memory_mb ≤ w.total_memory_mb
      → (restore k w).available_memory_mb ≡ w.available_memory_mb + k.required_memory_mb
  restore_available k w a b h = ground arith

  pub held-le-reserved :
      (id : String) (k : Workload F) (m : Dict (Workload F))
      → lookup k.id m ≡ some k
      → held id k ≤ total (held id) m
  held-le-reserved id k m e = total-measure-le (held id) k.id k m e

  -- A step that rewrites one workload and one worker, and takes from what is free what it adds to
  -- what is held.
  pub trade-IsAccounted :
      (s : Store F) (k k' : Workload F) (w w' : Worker F)
      → lookup k.id s.workloads ≡ some k
      → lookup w.id s.workers ≡ some w
      → w'.total_memory_mb ≡ w.total_memory_mb
      → ((id : String) → (w.id == id) ≡ false → held id k' ≤ held id k)
      → held w.id k' + w'.available_memory_mb ≤ held w.id k + w.available_memory_mb
      → IsAccounted s
      → IsAccounted
          (record { workers = insert w.id w' s.workers; workloads = insert k.id k' s.workloads })
  trade-IsAccounted s k k' w w' fk fw size others own acc id u found =
      let before = reserved-insert id k k' s.workloads fk in
      elim (Bool-cases (w.id == id)) [
        | inl same ↦ ground (arith, lookup-insert w.id id w' s.workers, acc w.id w, eq_iff w.id id)
        | inr other ↦ ground (arith, lookup-insert w.id id w' s.workers, acc id u, others id)
      ]

module _ {F : Type 0} ⦃fl : Float64 F⦄ where
  committed-IsAccounted :
      (s : Store F) (workload_id worker_id : String) (k : Workload F) (w : Worker F)
      → IsCommittable s workload_id worker_id k w
      → IsWellFormed s
      → IsAccounted s
      → IsAccounted (committed k w s)
  committed-IsAccounted s workload_id worker_id k w c v acc =
      let good = v.workers worker_id w c.found_worker in
      let fine = v.workloads workload_id k c.found_workload in
      let bound = available-le-total w good.valid in
      let room = reserve_available k w c.room (omega (arith, good.fits)) in
      trade-IsAccounted s k (place w.id k) w (reserve k w)
        (lookup_own s.workloads k fine.own_id c.found_workload)
        (lookup_own s.workers w good.own_id c.found_worker) refl
        (λ id other. ground (arith, held-place id w.id k))
        (ground (arith, held-place w.id w.id k, eq_refl w.id)) acc

  released-IsAccounted :
      (s : Store F) (workload_id : String) (next : WorkloadState) (k : Workload F) (w : Worker F)
      → IsReleasable s workload_id next k w
      → IsWellFormed s
      → IsAccounted s
      → IsAccounted (released next k w s)
  released-IsAccounted s workload_id next k w c v acc =
      let good = v.workers k.assigned_worker_id w c.found_worker in
      let fine = v.workloads workload_id k c.found_workload in
      let bound = available-le-total w good.valid in
      let found : lookup k.id s.workloads ≡ some k =
        lookup_own s.workloads k fine.own_id c.found_workload in
      let found' : lookup w.id s.workers ≡ some w =
        lookup_own s.workers w good.own_id c.found_worker in
      let mine = held-holding k c.holding w.id in
      let same : (k.assigned_worker_id == w.id) ≡ true =
        rw good.own_id (eq_refl k.assigned_worker_id) in
      let fits = held-le-reserved w.id k s.workloads found in
      let back = restore_available k w bound good.fits in
      trade-IsAccounted s k (unassign next k) w (restore k w) found found' refl
        (λ id other. ground (arith, target-held id k next c.target))
        (ground
          (arith, target-held w.id k next c.target, mine, same, fits, back, acc w.id w found'))
        acc

  -- A commit keeps the account of every worker, whether it succeeds or not.
  pub commit_placement-IsAccounted :
      (s : Store F) (ctx : Option Error) (workload_id worker_id : String)
      → IsWellFormed s
      → IsAccounted s
      → IsAccounted (commit_placement ctx workload_id worker_id s).1
  commit_placement-IsAccounted s ctx workload_id worker_id v acc =
      elim (Result-cases (commit_placement ctx workload_id worker_id s).0) [
        | inl (k', e) ↦
            let (k, w, c, _, q) = commit_placement_ok s ctx workload_id worker_id k' e in
            rw q (committed-IsAccounted s workload_id worker_id k w c v acc)
        | inr (x, e) ↦ rw (commit_placement_atomic s ctx workload_id worker_id x e) acc
      ]

  -- So does a release.
  pub release_placement-IsAccounted :
      (s : Store F) (ctx : Option Error) (workload_id : String) (next : WorkloadState)
      → IsWellFormed s
      → IsAccounted s
      → IsAccounted (release_placement ctx workload_id next s).1
  release_placement-IsAccounted s ctx workload_id next v acc =
      elim (Result-cases (release_placement ctx workload_id next s).0) [
        | inl (k', e) ↦
            let (k, w, c, _, q) = release_placement_ok s ctx workload_id next k' e in
            rw q (released-IsAccounted s workload_id next k w c v acc)
        | inr (x, e) ↦ rw (release_placement_atomic s ctx workload_id next x e) acc
      ]
