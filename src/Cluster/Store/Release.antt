-- ===== src/Cluster/Store/Release.antt =====
-- internal/cluster/memory_store.go: `ReleasePlacement`, on success and on failure.
use aegis_llm_control_plane.Base.{
  ◌≡◌, ◌≢◌, inl, inr, String, true, eq_iff, Option, none, some, arith, ok, err, Option-cases,
}
use aegis_llm_control_plane.Base.Dict.{lookup, insert}
use aegis_llm_control_plane.Base.Float.{Float64}
use aegis_llm_control_plane.Errors.{Error}
use aegis_llm_control_plane.Cluster.Types.{Worker, Workload, WorkloadState}
use aegis_llm_control_plane.Cluster.Validation.{validate_worker, validate_workload, holds_memory}
use aegis_llm_control_plane.Cluster.Store.{
  Store, is_release_target, restore, unassign, release_placement,
}

module _ {F : Type 0} ⦃fl : Float64 F⦄ where
  pub record IsReleasable (s : Store F) (workload_id : String) (next : WorkloadState)
      (k : Workload F) (w : Worker F) : Type 0 where
    pub found_workload : lookup workload_id s.workloads ≡ some k
    pub assigned : k.assigned_worker_id ≢ ""
    pub found_worker : lookup k.assigned_worker_id s.workers ≡ some w
    pub holding : holds_memory k.state ≡ true
    pub target : is_release_target next ≡ true
    pub valid_worker : validate_worker (restore k w) ≡ none
    pub valid_workload : validate_workload (unassign next k) ≡ none

  abbrev pub released : WorkloadState → Workload F → Worker F → Store F → Store F
  released next k w s = record {
    workers = insert w.id (restore k w) s.workers;
    workloads = insert k.id (unassign next k) s.workloads;
  }

  -- If the context is live and every demand is met, the release succeeds.
  pub release_placement_succeeds :
      (s : Store F) (workload_id : String) (next : WorkloadState) (k : Workload F) (w : Worker F)
      → IsReleasable s workload_id next k w
      → release_placement none workload_id next s ≡ (ok (unassign next k), released next k w s)
  unfolding release_placement
  release_placement_succeeds s workload_id next k w c =
      ground (arith, eq_iff k.assigned_worker_id "")

  -- A release that fails, for whatever reason, leaves the state as it was.
  pub release_placement_atomic :
      (s : Store F) (ctx : Option Error) (workload_id : String) (next : WorkloadState) (e : Error)
      → (release_placement ctx workload_id next s).0 ≡ err e
      → (release_placement ctx workload_id next s).1 ≡ s
  unfolding release_placement
  release_placement_atomic s ctx workload_id next e h = ground arith

  abbrev pub IsRelease : Store F → String → WorkloadState → Workload F → Store F → Type 0
  IsRelease s workload_id next k' s' =
      (k : Workload F) × (w : Worker F) × IsReleasable s workload_id next k w
      × (k' ≡ unassign next k)
      × (s' ≡ released next k w s)

  release_placement_found :
      (s : Store F) (ctx : Option Error) (workload_id : String) (next : WorkloadState)
      (k' k : Workload F) (w : Worker F)
      → lookup workload_id s.workloads ≡ some k
      → lookup k.assigned_worker_id s.workers ≡ some w
      → (release_placement ctx workload_id next s).0 ≡ ok k'
      → IsReleasable s workload_id next k w
        × (k' ≡ unassign next k)
        × ((release_placement ctx workload_id next s).1 ≡ released next k w s)
  unfolding release_placement
  release_placement_found s ctx workload_id next k' k w fk fw h =
      ground (arith, eq_iff k.assigned_worker_id "")

  release_placement_no_workload :
      (s : Store F) (ctx : Option Error) (workload_id : String) (next : WorkloadState)
      (k' : Workload F)
      → lookup workload_id s.workloads ≡ none
      → (release_placement ctx workload_id next s).0 ≡ ok k'
      → ⊥
  unfolding release_placement
  release_placement_no_workload s ctx workload_id next k' m h = ground arith

  release_placement_no_worker :
      (s : Store F) (ctx : Option Error) (workload_id : String) (next : WorkloadState)
      (k' k : Workload F)
      → lookup workload_id s.workloads ≡ some k
      → lookup k.assigned_worker_id s.workers ≡ none
      → (release_placement ctx workload_id next s).0 ≡ ok k'
      → ⊥
  unfolding release_placement
  release_placement_no_worker s ctx workload_id next k' k fk m h = ground arith

  -- A release that succeeds met every demand, and its next state is `released`.
  pub release_placement_ok :
      (s : Store F) (ctx : Option Error) (workload_id : String) (next : WorkloadState)
      (k' : Workload F)
      → (release_placement ctx workload_id next s).0 ≡ ok k'
      → IsRelease s workload_id next k' (release_placement ctx workload_id next s).1
  release_placement_ok s ctx workload_id next k' h =
      elim (Option-cases (lookup workload_id s.workloads)) [
        | inl e ↦ absurd (release_placement_no_workload s ctx workload_id next k' e h)
        | inr (k, fk) ↦ elim (Option-cases (lookup k.assigned_worker_id s.workers)) [
          | inl e ↦ absurd (release_placement_no_worker s ctx workload_id next k' k fk e h)
          | inr (w, fw) ↦
              let (c, p, q) = release_placement_found s ctx workload_id next k' k w fk fw h in
              (k, w, c, p, q)
        ]
      ]
