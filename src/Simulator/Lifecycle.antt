-- ===== src/Simulator/Lifecycle.antt =====
-- internal/simulator/lifecycle.go: the running workloads, and their end once their time is over.
pub mod Laws
pub mod Complete
pub mod Sound
pub mod Stuck
use aegis_llm_control_plane.Base.{
  ℕ, String, Bool, true, false, not, ◌==◌, List, [], ◌∷◌, Option, none, some, ok, err, Result, M,
  proceed, ◌>>=◌, ◌>>◌, pure, ltb, if◌then◌else◌,
}
use aegis_llm_control_plane.Base.Dict.{Dict, lookup, insert, delete, values}
use aegis_llm_control_plane.Base.Int.{
  ℤ, pos, ◌-ℤ◌, wrap_int, lt_int, add_uint, sub_uint, Time, Duration, is_zero_time, time_add,
  before,
}
use aegis_llm_control_plane.Base.Float.{Float64}
use aegis_llm_control_plane.Errors.{Error}
use aegis_llm_control_plane.Cluster.Types.{Worker, Workload, workload_running, workload_completed}
use aegis_llm_control_plane.Cluster.Store.{
  get_worker, get_workload, list_workloads, update_worker, update_workload,
}
use aegis_llm_control_plane.Shared.{Run, Sys, call}

pub record ActiveWorkload : Type 0 where
  pub workload_id : String
  pub worker_id : String
  pub memory_mb : ℕ
  pub started_at : Time
  pub duration : Duration

abbrev pub WorkloadLifecycle : Type 0
WorkloadLifecycle = Dict ActiveWorkload

abbrev pub new_workload_lifecycle : WorkloadLifecycle
new_workload_lifecycle = []

unfoldable pub remove : String → WorkloadLifecycle → WorkloadLifecycle
remove workload_id l = delete workload_id l

unfoldable pub active_workload : String → WorkloadLifecycle → Option ActiveWorkload
active_workload workload_id l = lookup workload_id l

abbrev pub is_over : Option ActiveWorkload → Time → Bool
is_over none now = false
is_over (some active) now = not (before now (time_add active.started_at active.duration))

unfoldable pub completed : String → Time → WorkloadLifecycle → Bool
completed workload_id now l = is_over (active_workload workload_id l) now

module _ {F : Type 0} where
  unfoldable pub track : Workload F → Time → WorkloadLifecycle → WorkloadLifecycle
  track workload start l =
      insert workload.id
        (record {
          workload_id = workload.id;
          worker_id = workload.assigned_worker_id;
          memory_mb = workload.required_memory_mb;
          started_at = start;
          duration = workload.expected_duration;
        })
        l

  -- The loop of `InitializeLifecycle`.
  unfoldable pub track_running : Time → List (Workload F) → WorkloadLifecycle → WorkloadLifecycle
  track_running now [] l = l
  track_running now (w ∷ ws) l =
      let rest = track_running now ws in
      if not (w.state == workload_running)
      then rest l
      else if w.assigned_worker_id == ""
      then rest l
      else rest (track w (if is_zero_time w.arrival_time then now else w.arrival_time) l)

-- The simulator's run, with the lifecycle that is its own.
pub record World (F : Type 0) : Type 0 where
  pub sys : Sys F
  pub lifecycle : WorkloadLifecycle

abbrev pub Sim : Type 0 → Type 0 → Type 0
Sim F A = M (World F) Error A

module _ {F : Type 0} where
  -- A run against the store.
  abbrev pub on_store : {A : Type 0} → Run F A → Sim F A
  on_store m w = let p = m w.sys in (p.0, record w { sys = p.1 })

  abbrev pub on_lifecycle : (WorkloadLifecycle → WorkloadLifecycle) → Sim F (Unit {0})
  on_lifecycle f w = (ok tt, record w { lifecycle = f w.lifecycle })

  unfoldable pub initialize_lifecycle : Time → Sim F (Unit {0})
  initialize_lifecycle now = do
    workloads ← on_store (call list_workloads)
    on_lifecycle (track_running now workloads)

module _ {F : Type 0} ⦃fl : Float64 F⦄ where
  open fl use {of_uint, sub, mul, div, le}

  -- The worker without a workload that ends on it. The sum is one of uint64.
  abbrev pub freed_memory : Workload F → Worker F → ℕ
  freed_memory workload worker =
      if ltb worker.total_memory_mb
        (add_uint worker.available_memory_mb workload.required_memory_mb)
      then worker.total_memory_mb
      else add_uint worker.available_memory_mb workload.required_memory_mb

  unfoldable pub vacate : Workload F → Worker F → Worker F
  vacate workload worker =
      let available = freed_memory workload worker in
      record worker {
        available_memory_mb = available;
        memory_utilization =
            if ltb 0 worker.total_memory_mb
            then mul
                (div (of_uint (sub_uint worker.total_memory_mb available))
                  (of_uint worker.total_memory_mb))
                (of_uint 100)
            else worker.memory_utilization;
        active_workload_count =
            if lt_int (pos 0) worker.active_workload_count
            then wrap_int (worker.active_workload_count -ℤ pos 1)
            else worker.active_workload_count;
        compute_utilization =
            if le (of_uint 10) worker.compute_utilization
            then sub worker.compute_utilization (of_uint 10)
            else of_uint 0;
      }

  abbrev pub finish : Workload F → Workload F
  finish workload = record workload { state = workload_completed }

  unfoldable pub complete_workload : Workload F → Run F (Unit {0})
  complete_workload workload = do
    worker ← call (λ ctx. get_worker ctx workload.assigned_worker_id)
    call (λ ctx. update_worker ctx (vacate workload worker))
    call (λ ctx. update_workload ctx (finish workload))

  abbrev pub complete_unless_done : Workload F → Sim F (Unit {0})
  complete_unless_done workload =
      if workload.state == workload_completed
      then pure tt
      else on_store (complete_workload workload)

  -- One round of the loop over the active workloads.
  unfoldable pub advance_workload : Time → ActiveWorkload → Sim F (Unit {0})
  advance_workload now active w =
      if not (completed active.workload_id now w.lifecycle)
      then (ok tt, w)
      else ((do
        workload ← on_store (call (λ ctx. get_workload ctx active.workload_id))
        complete_unless_done workload
        on_lifecycle (remove active.workload_id))
          w)

  unfoldable pub advance_all : Time → List ActiveWorkload → Sim F (Unit {0})
  advance_all now [] = pure tt
  advance_all now (active ∷ rest) = advance_workload now active >> advance_all now rest

  unfoldable pub advance_workloads : Time → Sim F (Unit {0})
  advance_workloads now w = advance_all now (values w.lifecycle) w
