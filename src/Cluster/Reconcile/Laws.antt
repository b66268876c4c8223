-- ===== src/Cluster/Reconcile/Laws.antt =====
-- internal/cluster/reconcile.go: the counts of a pass.
use aegis_llm_control_plane.Base.{
  false, ◌||◌, if◌then◌else◌, ◌∙◌, ℕ, ◌+◌, ◌≡◌, refl, ap, subst, String, Bool, not, ◌&&◌, ◌==◌,
  List, [], ◌∷◌, Option, none, some, Result, ok, err, ok_injective, arith, length, filter,
}
use aegis_llm_control_plane.Base.Dict.{Dict, lookup, insert, lookup-insert}
use aegis_llm_control_plane.Base.Int.{Time}
use aegis_llm_control_plane.Base.Float.{Float64}
use aegis_llm_control_plane.Errors.{Error}
use aegis_llm_control_plane.Cluster.Types.{Worker, Workload, WorkerState, Snapshot}
use aegis_llm_control_plane.Cluster.Health.{WorkerHealthConfig, evaluate_worker_health}
use aegis_llm_control_plane.Cluster.Store.{snapshot, release_placement}
use aegis_llm_control_plane.Shared.{Sys, call}
use aegis_llm_control_plane.Cluster.Reconcile.{
  ReconcileResult, nothing_done, Pass, worker_states, is_stranded, recovery_state, count_release,
  go_on, write_state, reconcile_workers, reconcile_workloads, then_workloads, reconcile_snapshot,
  reconcile_cluster,
}

abbrev pub count : {A : Type 0} → (A → Bool) → List A → ℕ
count p xs = length (filter p xs)

abbrev one_more : ReconcileResult → ReconcileResult
one_more r = record r { updated_workers = r.updated_workers + 1 }

-- The first loop adds the workers that changed, and nothing else.
abbrev AddsChanged : ReconcileResult → ℕ → ReconcileResult → Type 0
AddsChanged r n r' =
    (r'.updated_workers ≡ r.updated_workers + n)
    × (r'.recovered_workloads ≡ r.recovered_workloads)
    × (r'.failed_workloads ≡ r.failed_workloads)

abbrev AddsReleased : ReconcileResult → ℕ → ℕ → ReconcileResult → Type 0
AddsReleased r m n r' =
    (r'.updated_workers ≡ r.updated_workers)
    × (r'.recovered_workloads ≡ r.recovered_workloads + m)
    × (r'.failed_workloads ≡ r.failed_workloads + n)

abbrev health_or : Option WorkerState → Option WorkerState → Option WorkerState
health_or none other = other
health_or (some st) other = some st

module _ {F : Type 0} where
  -- The worker's state is to change.
  abbrev pub is_changed : Time → WorkerHealthConfig → Worker F → Bool
  is_changed now config w = not (evaluate_worker_health w now config == w.state)

  go_on-none :
      {A : Type 0} (what : String) (x : Result Error A) (next : ReconcileResult) (rest : Pass F)
      (r : ReconcileResult) (s : Sys F)
      → (go_on what x next rest r s).0.1 ≡ none
      → go_on what x next rest r s ≡ rest next s
  go_on-none what (ok a) next rest r s h = refl
  go_on-none what (err e) next rest r s h = cc

module _ {F : Type 0} ⦃fl : Float64 F⦄ where
  reconcile_workers-count :
      (now : Time) (config : WorkerHealthConfig) (ws : List (Worker F)) (r : ReconcileResult)
      (s : Sys F)
      → (reconcile_workers now config ws r s).0.1 ≡ none
      → AddsChanged r (count (is_changed now config) ws) (reconcile_workers now config ws r s).0.0
  unfolding reconcile_workers
  reconcile_workers-count now config [] r s h = omega arith
  reconcile_workers-count now config (w ∷ ws) r s h =
      let st = evaluate_worker_health w now config in
      ground (
        arith,
        reconcile_workers-count now config ws r s,
        reconcile_workers-count now config ws (one_more r) (write_state w st s).1,
      )

  abbrev pub recovers : Dict WorkerState → Workload F → Bool
  recovers states k = is_stranded states k && k.checkpointable

  abbrev pub fails : Dict WorkerState → Workload F → Bool
  fails states k = is_stranded states k && not k.checkpointable

  reconcile_workloads-count :
      (states : Dict WorkerState) (ks : List (Workload F)) (r : ReconcileResult) (s : Sys F)
      → (reconcile_workloads states ks r s).0.1 ≡ none
      → AddsReleased r
          (count (recovers states) ks)
          (count (fails states) ks)
          (reconcile_workloads states ks r s).0.0
  unfolding reconcile_workloads
  reconcile_workloads-count states [] r s h = omega arith
  reconcile_workloads-count states (k ∷ ks) r s h = ground (
    arith,
    reconcile_workloads-count states ks r s,
    reconcile_workloads-count states ks (count_release k r)
        (call (λ ctx. release_placement ctx k.id (recovery_state k)) s).1,
  )

  then_workloads-count :
      (states : Dict WorkerState) (ks : List (Workload F))
      (p : (ReconcileResult × Option Error) × Sys F)
      → (then_workloads states ks p).0.1 ≡ none
      → (p.0.1 ≡ none)
        × AddsReleased p.0.0
            (count (recovers states) ks)
            (count (fails states) ks)
            (then_workloads states ks p).0.0
  then_workloads-count states ks ((r, none), s) h =
      (refl, reconcile_workloads-count states ks r s h)
  then_workloads-count states ks ((r, some e), s) h = cc

  -- The state that EvaluateWorkerHealth finds of the worker with this ID, the last one if several.
  abbrev pub health_of : Time → WorkerHealthConfig → String → List (Worker F) → Option WorkerState
  health_of now config id [] = none
  health_of now config id (w ∷ ws) = elim (health_of now config id ws) [
    | some st ↦ some st
    | none ↦ if w.id == id then some (evaluate_worker_health w now config) else none
  ]

  -- The workload is PLACED or RUNNING on a worker of the list that is found UNHEALTHY.
  abbrev pub is_lost : Time → WorkerHealthConfig → List (Worker F) → Workload F → Bool
  is_lost now config ws k =
      not (k.assigned_worker_id == "")
      && (elim (health_of now config k.assigned_worker_id ws) [
        | some st ↦ st == "UNHEALTHY"
        | none ↦ false
      ]
          && (k.state == "PLACED" || k.state == "RUNNING"))

  lookup-worker_states :
      (now : Time) (config : WorkerHealthConfig) (id : String) (ws : List (Worker F))
      (states : Dict WorkerState)
      → lookup id (worker_states now config ws states)
        ≡ health_or (health_of now config id ws) (lookup id states)
  unfolding worker_states
  lookup-worker_states now config id [] states = refl
  lookup-worker_states now config id (w ∷ ws) states =
      let st = evaluate_worker_health w now config in
      ground (
        arith,
        lookup-worker_states now config id ws (insert w.id st states),
        lookup-insert w.id id st states,
      )

  is_stranded-is_lost :
      (now : Time) (config : WorkerHealthConfig) (ws : List (Worker F)) (k : Workload F)
      → is_stranded (worker_states now config ws []) k ≡ is_lost now config ws k
  unfolding lookup
  is_stranded-is_lost now config ws k =
      ground (arith, lookup-worker_states now config k.assigned_worker_id ws [])

  -- The lost workloads of a snapshot that can be checkpointed, and those that cannot.
  abbrev pub count_recoverable : Time → WorkerHealthConfig → Snapshot F → ℕ
  count_recoverable now config snap =
      count (λ k. is_lost now config snap.workers k && k.checkpointable) snap.workloads

  abbrev pub count_unrecoverable : Time → WorkerHealthConfig → Snapshot F → ℕ
  count_unrecoverable now config snap =
      count (λ k. is_lost now config snap.workers k && not k.checkpointable) snap.workloads

  count_congr :
      (p q : Workload F → Bool) (ks : List (Workload F))
      → ((k : Workload F) → p k ≡ q k)
      → count p ks ≡ count q ks
  count_congr p q [] h = refl
  count_congr p q (k ∷ ks) h = ground (arith, h k, count_congr p q ks h)

  by_guard :
      (now : Time) (config : WorkerHealthConfig) (s : Sys F) (snap : Snapshot F)
      → (call snapshot s).0 ≡ ok snap
      → (reconcile_cluster now config s).0.1 ≡ none
      → let states = worker_states now config snap.workers [] in
        let r = (reconcile_cluster now config s).0.0 in
        (r.updated_workers ≡ count (is_changed now config) snap.workers)
        × (r.recovered_workloads ≡ count (recovers states) snap.workloads)
        × (r.failed_workloads ≡ count (fails states) snap.workloads)
  unfolding reconcile_cluster
  by_guard now config s snap e h = from_snap (call snapshot s).0 (call snapshot s).1 e h
    where
      from_snap :
          (x : Result Error (Snapshot F)) (t : Sys F)
          → x ≡ ok snap
          → (reconcile_snapshot now config x t).0.1 ≡ none
          → let states = worker_states now config snap.workers [] in
            let r = (reconcile_snapshot now config x t).0.0 in
            (r.updated_workers ≡ count (is_changed now config) snap.workers)
            × (r.recovered_workloads ≡ count (recovers states) snap.workloads)
            × (r.failed_workloads ≡ count (fails states) snap.workloads)
      from_snap (err x) t e h = cc
      from_snap (ok other) t e h =
          let states = worker_states now config other.workers [] in
          let (quiet, adds) =
            then_workloads-count states other.workloads
              (reconcile_workers now config other.workers nothing_done t) h in
          let first = reconcile_workers-count now config other.workers nothing_done t quiet in
          subst
            (λ q.
              let states = worker_states now config q.workers [] in
              let r = (reconcile_snapshot now config (ok other) t).0.0 in
              (r.updated_workers ≡ count (is_changed now config) q.workers)
              × (r.recovered_workloads ≡ count (recovers states) q.workloads)
              × (r.failed_workloads ≡ count (fails states) q.workloads))
            (ok_injective e) (omega (arith, adds, first))

  recovers-is_lost :
      (now : Time) (config : WorkerHealthConfig) (snap : Snapshot F)
      → count (recovers (worker_states now config snap.workers [])) snap.workloads
        ≡ count_recoverable now config snap
  recovers-is_lost now config snap =
      count_congr _ _ snap.workloads
        λ k. ap (λ b. b && k.checkpointable) (is_stranded-is_lost now config snap.workers k)

  fails-is_lost :
      (now : Time) (config : WorkerHealthConfig) (snap : Snapshot F)
      → count (fails (worker_states now config snap.workers [])) snap.workloads
        ≡ count_unrecoverable now config snap
  fails-is_lost now config snap =
      count_congr _ _ snap.workloads
        λ k. ap (λ b. b && not k.checkpointable) (is_stranded-is_lost now config snap.workers k)

  -- A pass that took a snapshot and ends without an error counts: as updated, the workers of the
  -- snapshot that EvaluateWorkerHealth finds in another state than the one they have; as recovered,
  -- the workloads of the snapshot that are PLACED or RUNNING, assigned under an ID that is not
  -- empty to a worker of the snapshot (the last one with that ID) that EvaluateWorkerHealth finds
  -- UNHEALTHY, and can be checkpointed; as failed, those that cannot.
  pub reconcile_cluster-count :
      (now : Time) (config : WorkerHealthConfig) (s : Sys F) (snap : Snapshot F)
      → (call snapshot s).0 ≡ ok snap
      → (reconcile_cluster now config s).0.1 ≡ none
      → let r = (reconcile_cluster now config s).0.0 in
        (r.updated_workers ≡ count (is_changed now config) snap.workers)
        × (r.recovered_workloads ≡ count_recoverable now config snap)
        × (r.failed_workloads ≡ count_unrecoverable now config snap)
  reconcile_cluster-count now config s snap e h =
      let (updated, recovered, failed) = by_guard now config s snap e h in
      (
        updated,
        recovered ∙ recovers-is_lost now config snap,
        failed ∙ fails-is_lost now config snap,
      )
