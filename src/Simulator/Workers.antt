-- ===== src/Simulator/Workers.antt =====
-- internal/simulator/simulator.go: the heartbeats of the workers with their utilizations, and the
-- simulator's run.
pub mod Laws
pub mod Runs
use aegis_llm_control_plane.Base.{
  ℕ, ◌+◌, String, List, [], ◌∷◌, Option, some, ok, err, Result, proceed, ◌>>=◌, ◌>>◌, pure, fail,
  lift, if◌then◌else◌,
}
use aegis_llm_control_plane.Base.Int.{ℤ, pos, ◌+ℤ◌, wrap_int, le_int, Time, Duration}
use aegis_llm_control_plane.Base.Float.{Float64}
use aegis_llm_control_plane.Errors.{Error, non_positive_ticker}
use aegis_llm_control_plane.Cluster.Types.{Worker}
use aegis_llm_control_plane.Cluster.Store.{list_workers, update_worker}
use aegis_llm_control_plane.Shared.{Run, Sys, call}
use aegis_llm_control_plane.Ticker.{Event, again, run_loop}
use aegis_llm_control_plane.Simulator.Scenario.{
  Scenario, scenario_rising_pressure, Utilization, utilization,
}
use aegis_llm_control_plane.Simulator.Lifecycle.{
  World, Sim, new_workload_lifecycle, on_store, initialize_lifecycle, advance_workloads,
}

-- The simulator without its store.
pub record Simulator : Type 0 where
  pub scenario : Scenario

abbrev pub new_with_scenario : Scenario → Simulator
new_with_scenario scenario = record { scenario = scenario }

abbrev pub new : Simulator
new = new_with_scenario scenario_rising_pressure

-- The simulator's run with its step, which an int counts.
pub record Running (F : Type 0) : Type 0 where
  pub world : World F
  pub step : ℤ

-- `step++`, which an error before it skips.
abbrev pub next_step :
    {F : Type 0} → Result Error (Unit {0}) → World F → ℤ → Result Error (Unit {0}) × Running F
next_step (ok u) w step = (ok tt, record { world = w; step = wrap_int (step +ℤ pos 1) })
next_step (err e) w step = (err e, record { world = w; step = step })

module _ {F : Type 0} ⦃fl : Float64 F⦄ where
  abbrev pub observed : Utilization F → Time → Worker F → Worker F
  observed u now worker = record worker {
    compute_utilization = u.compute;
    memory_utilization = u.memory;
    last_heartbeat = now;
  }

  -- The loop from index i. `clock` is what `time.Now()` returns in each of its rounds.
  unfoldable pub update_from : Simulator → (ℕ → Time) → ℤ → ℕ → List (Worker F) → Run F (Unit {0})
  update_from s clock step i [] = pure tt
  update_from s clock step i (worker ∷ workers) = do
    u ← lift (utilization s.scenario step (pos i))
    call (λ ctx. update_worker ctx (observed u (clock i) worker))
    update_from s clock step (i + 1) workers

  unfoldable pub update_workers : Simulator → (ℕ → Time) → ℤ → Run F (Unit {0})
  update_workers s clock step = do workers ← call list_workers; update_from s clock step 0 workers

  -- A tick brings its time, and the readings of the clock in the round that it starts.
  unfoldable pub simulate :
      Simulator → Time × (ℕ → Time) → Running F → Result Error (Unit {0}) × Running F
  simulate s tick r =
      let p = (on_store (update_workers s tick.1 r.step) >> advance_workloads tick.0) r.world in
      next_step p.0 p.1 r.step

  -- `start` is the clock at the start, before the loop.
  unfoldable pub run :
      Simulator
      → Duration
      → Time
      → List (Event (Time × (ℕ → Time)))
      → Sys F
      → Option Error × Running F
  run s interval start events sys =
      let fresh : World F = record { sys = sys; lifecycle = new_workload_lifecycle } in
      if le_int interval (pos 0)
      then (some non_positive_ticker, record { world = fresh; step = pos 0 })
      else (let p = initialize_lifecycle start fresh in
          again p.0 (run_loop (simulate s) events) (record { world = p.1; step = pos 0 }))
