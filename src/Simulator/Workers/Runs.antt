-- ===== src/Simulator/Workers/Runs.antt =====
-- internal/simulator/simulator.go: the whole run of the simulator when nobody else acts.
use aegis_llm_control_plane.Base.{
  ℕ, ◌≡◌, inl, inr, refl, sym, ap, subst, true, List, [], ok, err, Result, Bool-cases, ◌>>◌,
}
use aegis_llm_control_plane.Base.Dict.{values}
use aegis_llm_control_plane.Base.Int.{ℤ, pos, le_int, Time, Duration}
use aegis_llm_control_plane.Base.Float.{Float64, IsIeee}
use aegis_llm_control_plane.Errors.{Error}
use aegis_llm_control_plane.Cluster.Store.{Store, list_workloads}
use aegis_llm_control_plane.Shared.{call, alone}
use aegis_llm_control_plane.Ticker.{Event, run_loop, run_loop-keeps}
use aegis_llm_control_plane.Simulator.Scenario.Laws.{is_known}
use aegis_llm_control_plane.Simulator.Lifecycle.{
  WorkloadLifecycle, World, on_store, track_running, initialize_lifecycle, advance_workloads,
}
use aegis_llm_control_plane.Simulator.Lifecycle.Complete.{IsKept}
use aegis_llm_control_plane.Simulator.Lifecycle.Sound.{world, Stays, advance_workloads-Stays}
use aegis_llm_control_plane.Simulator.Workers.{
  Simulator, Running, next_step, update_workers, simulate, run,
}
use aegis_llm_control_plane.Simulator.Workers.Laws.{update_workers_succeeds}

module _ {F : Type 0} ⦃fl : Float64 F⦄ where
  abbrev InWorld : World F → Type 0
  InWorld w = (s : Store F) × (l : WorkloadLifecycle) × ((w ≡ world s l) × IsKept s)

  next_step-InWorld :
      (r : Result Error (Unit {0})) (w : World F) (step : ℤ)
      → InWorld w
      → InWorld (next_step r w step).1.world
  next_step-InWorld (ok u) w step h = h
  next_step-InWorld (err e) w step h = h

  Stays-InWorld : (p : Result Error (Unit {0}) × World F) → Stays p → InWorld p.1
  Stays-InWorld p (r, t, l, (e, kept)) = (t, l, (ap (λ x. x.1) e, kept))

  round-Stays :
      (laws : IsIeee F) (sim : Simulator) (clock : ℕ → Time) (step : ℤ) (now : Time) (s : Store F)
      (l : WorkloadLifecycle)
      → is_known sim.scenario ≡ true
      → IsKept s
      → Stays ((on_store (update_workers sim clock step) >> advance_workloads now) (world s l))
  round-Stays laws sim clock step now s l known h =
      let (t, (p, kept)) = update_workers_succeeds laws sim clock step s known h in
      rw p (advance_workloads-Stays now t l kept)

  simulate-InWorld :
      (laws : IsIeee F) (sim : Simulator)
      → is_known sim.scenario ≡ true
      → (tick : Time × (ℕ → Time)) (r : Running F) → InWorld r.world
      → InWorld (simulate sim tick r).1.world
  unfolding simulate
  simulate-InWorld laws sim known tick r (s, l, (e, h)) =
      let go = (on_store (update_workers sim tick.1 r.step) >> advance_workloads tick.0) in
      next_step-InWorld (go r.world).0 (go r.world).1 r.step (
        Stays-InWorld (go r.world) (
          subst (λ w. Stays (go w)) (sym e)
            (round-Stays laws sim tick.1 r.step tick.0 s l known h)))

  initialize_lifecycle-world :
      (start : Time) (s : Store F) (l : WorkloadLifecycle)
      → initialize_lifecycle start (world s l)
        ≡ (ok tt, world s (track_running start (values s.workloads) l))
  unfolding initialize_lifecycle call list_workloads
  initialize_lifecycle-world start s l = refl

  -- The simulator with a known scenario keeps a store sound over its whole run when nobody else
  -- acts on it, for any interval and any number of ticks before it ends or is left waiting: each
  -- entry passes its check and stands under its own ID, what is held of a worker and what it has
  -- available fit its memory together, each workload with a worker holds memory or is completed, and
  -- each worker stands in the map once.
  pub run-IsKept :
      (laws : IsIeee F) (sim : Simulator) (interval : Duration) (start : Time)
      (events : List (Event (Time × (ℕ → Time)))) (s : Store F)
      → is_known sim.scenario ≡ true
      → IsKept s
      → IsKept (run sim interval start events (alone s)).1.world.sys.store
  unfolding run
  run-IsKept laws sim interval start events s known h =
      elim (Bool-cases (le_int interval (pos 0))) [
        | inl never ↦ rw never h
        | inr often ↦
            rw (often, initialize_lifecycle-world start s [])
              (in_store
                (run_loop (simulate sim) events (record {
                  world = world s (track_running start (values s.workloads) []);
                  step = pos 0;
                })).1.world
                (run_loop-keeps (λ r. InWorld r.world) (simulate sim) events
                  (simulate-InWorld laws sim known)
                  (record {
                    world = world s (track_running start (values s.workloads) []);
                    step = pos 0;
                  })
                  (s, track_running start (values s.workloads) [], (refl, h))))
      ]
    where
      in_store : (w : World F) → InWorld w → IsKept w.sys.store
      in_store w (t, l, (e, kept)) = subst IsKept (sym (ap (λ x. x.sys.store) e)) kept
