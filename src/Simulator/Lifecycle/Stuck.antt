-- ===== src/Simulator/Lifecycle/Stuck.antt =====
-- internal/simulator/lifecycle.go: a workload that has no worker any more when its time is over.
use aegis_llm_control_plane.Base.{◌≡◌, refl, true, false, ◌==◌, [], ◌∷◌, none, some, err}
use aegis_llm_control_plane.Base.Dict.{lookup}
use aegis_llm_control_plane.Base.Int.{Time}
use aegis_llm_control_plane.Base.Float.{Float64}
use aegis_llm_control_plane.Errors.{worker_not_found}
use aegis_llm_control_plane.Cluster.Types.{Workload, workload_completed}
use aegis_llm_control_plane.Cluster.Store.{Store, get_worker, get_workload}
use aegis_llm_control_plane.Shared.{call}
use aegis_llm_control_plane.Simulator.Lifecycle.{
  ActiveWorkload, completed, complete_workload, advance_workload, advance_all, advance_workloads,
}

module _ {F : Type 0} ⦃fl : Float64 F⦄ where
  -- When the time of the only tracked workload is over, and it stands in the store without a worker
  -- and not completed, as a release leaves it, a pass with which nobody interferes fails with the
  -- error of a worker without a name, and leaves the store and the lifecycle as they were.
  pub advance_workloads_stuck :
      (now : Time) (a : ActiveWorkload) (k : Workload F) (s : Store F)
      → completed a.workload_id now ((a.workload_id, a) ∷ []) ≡ true
      → lookup a.workload_id s.workloads ≡ some k
      → k.assigned_worker_id ≡ ""
      → (k.state == workload_completed) ≡ false
      → lookup "" s.workers ≡ none
      → advance_workloads now
          (record { sys = record { store = s; turns = [] }; lifecycle = (a.workload_id, a) ∷ [] })
        ≡ (
          err (worker_not_found ""),
          record { sys = record { store = s; turns = [] }; lifecycle = (a.workload_id, a) ∷ [] },
        )
  unfolding advance_workloads advance_all advance_workload complete_workload call get_worker
      get_workload
  advance_workloads_stuck now a k s over found nobody open_still nameless =
      rw (over, found, open_still, nobody, nameless) refl
