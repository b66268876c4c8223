-- ===== src/Cluster/Store/Commit.antt =====
-- internal/cluster/memory_store.go: `CommitPlacement`, on success and on failure.
use aegis_llm_control_plane.Base.{
  String, ◌≤◌, ◌≡◌, ◌⊎◌, inl, inr, true, eq_iff, Option, none, some, arith, ok, err, Option-cases,
}
use aegis_llm_control_plane.Base.Dict.{lookup, insert}
use aegis_llm_control_plane.Errors.{Error}
use aegis_llm_control_plane.Cluster.Types.{Worker, Workload, worker_healthy}
use aegis_llm_control_plane.Cluster.Topology.{matches_topology_requirement}
use aegis_llm_control_plane.Cluster.Store.{Store, is_schedulable, reserve, place, commit_placement}

module _ {F : Type 0} where
  -- All that a commit demands of the state that it finds.
  pub record IsCommittable (s : Store F) (workload_id worker_id : String) (k : Workload F)
      (w : Worker F) : Type 0 where
    pub found_workload : lookup workload_id s.workloads ≡ some k
    pub found_worker : lookup worker_id s.workers ≡ some w
    pub healthy : w.state ≡ worker_healthy
    pub topology : matches_topology_requirement k w ≡ true
    pub schedulable : is_schedulable k.state ≡ true
    pub room : k.required_memory_mb ≤ w.available_memory_mb

  -- The state after the commit.
  abbrev pub committed : Workload F → Worker F → Store F → Store F
  committed k w s = record {
    workers = insert w.id (reserve k w) s.workers;
    workloads = insert k.id (place w.id k) s.workloads;
  }

  -- If the context is live and every demand is met, the commit succeeds: it takes the workload's
  -- memory from the worker, counts one workload more, and marks the workload as placed there.
  pub commit_placement_succeeds :
      (s : Store F) (workload_id worker_id : String) (k : Workload F) (w : Worker F)
      → IsCommittable s workload_id worker_id k w
      → commit_placement none workload_id worker_id s ≡ (ok (place w.id k), committed k w s)
  unfolding commit_placement
  commit_placement_succeeds s workload_id worker_id k w c =
      ground (arith, eq_iff w.state worker_healthy)

  -- A commit that fails, for whatever reason, leaves the state as it was.
  pub commit_placement_atomic :
      (s : Store F) (ctx : Option Error) (workload_id worker_id : String) (e : Error)
      → (commit_placement ctx workload_id worker_id s).0 ≡ err e
      → (commit_placement ctx workload_id worker_id s).1 ≡ s
  unfolding commit_placement
  commit_placement_atomic s ctx workload_id worker_id e h = ground arith

  abbrev pub IsCommit : Store F → String → String → Workload F → Store F → Type 0
  IsCommit s workload_id worker_id k' s' =
      (k : Workload F) × (w : Worker F) × IsCommittable s workload_id worker_id k w
      × (k' ≡ place w.id k)
      × (s' ≡ committed k w s)

  commit_placement_found :
      (s : Store F) (ctx : Option Error) (workload_id worker_id : String) (k' k : Workload F)
      (w : Worker F)
      → lookup workload_id s.workloads ≡ some k
      → lookup worker_id s.workers ≡ some w
      → (commit_placement ctx workload_id worker_id s).0 ≡ ok k'
      → IsCommittable s workload_id worker_id k w
        × (k' ≡ place w.id k)
        × ((commit_placement ctx workload_id worker_id s).1 ≡ committed k w s)
  unfolding commit_placement
  commit_placement_found s ctx workload_id worker_id k' k w fk fw h =
      ground (arith, eq_iff w.state worker_healthy)

  commit_placement_missing :
      (s : Store F) (ctx : Option Error) (workload_id worker_id : String) (k' : Workload F)
      → (lookup workload_id s.workloads ≡ none) ⊎ (lookup worker_id s.workers ≡ none)
      → (commit_placement ctx workload_id worker_id s).0 ≡ ok k'
      → ⊥
  unfolding commit_placement
  commit_placement_missing s ctx workload_id worker_id k' m h = ground arith

  -- A commit that succeeds met every demand, and its next state is `committed`.
  pub commit_placement_ok :
      (s : Store F) (ctx : Option Error) (workload_id worker_id : String) (k' : Workload F)
      → (commit_placement ctx workload_id worker_id s).0 ≡ ok k'
      → IsCommit s workload_id worker_id k' (commit_placement ctx workload_id worker_id s).1
  commit_placement_ok s ctx workload_id worker_id k' h =
      elim (Option-cases (lookup workload_id s.workloads)) [
        | inl e ↦ absurd (commit_placement_missing s ctx workload_id worker_id k' (inl e) h)
        | inr (k, fk) ↦ elim (Option-cases (lookup worker_id s.workers)) [
          | inl e ↦ absurd (commit_placement_missing s ctx workload_id worker_id k' (inr e) h)
          | inr (w, fw) ↦
              let (c, p, q) = commit_placement_found s ctx workload_id worker_id k' k w fk fw h in
              (k, w, c, p, q)
        ]
      ]
