-- ===== src/Scheduler/Score.antt =====
-- internal/scheduler/scheduler.go: the score of a worker for a workload.
use aegis_llm_control_plane.Base.{
  String, Bool, true, false, ◌&&◌, ◌==◌, List, [], ◌∷◌, leb, if◌then◌else◌,
}
use aegis_llm_control_plane.Base.Float.{Float64}
use aegis_llm_control_plane.Cluster.Types.{Worker, Workload, worker_healthy}
use aegis_llm_control_plane.Cluster.Topology.{matches_topology_requirement}

pub record WorkerScoreBreakdown (F : Type 0) : Type 0 where
  pub memory_headroom : F
  pub compute_penalty : F
  pub memory_penalty : F
  pub active_workload_penalty : F
  pub model_locality_bonus : F
  pub total : F

-- The loop over `CachedModels`.
abbrev pub is_cached : String → List String → Bool
is_cached model [] = false
is_cached model (m ∷ ms) = let rest = is_cached model ms in if m == model then true else rest

-- The three tests at the head of each selection loop: health, memory, topology.
unfoldable pub is_eligible : {F : Type 0} → Workload F → Worker F → Bool
is_eligible workload worker =
    worker.state == worker_healthy
    && (leb workload.required_memory_mb worker.available_memory_mb
        && matches_topology_requirement workload worker)

module _ {F : Type 0} ⦃fl : Float64 F⦄ where
  open fl use {of_uint, of_int, add, sub, mul, div}

  unfoldable pub explain_worker_score : Workload F → Worker F → WorkerScoreBreakdown F
  explain_worker_score workload worker = record {
    memory_headroom = headroom;
    compute_penalty = worker.compute_utilization;
    memory_penalty = worker.memory_utilization;
    active_workload_penalty = active;
    model_locality_bonus = bonus;
    total =
        add (sub (sub (sub headroom worker.compute_utilization) worker.memory_utilization) active)
          bonus;
  }
    where
      headroom : F
      headroom = div (of_uint worker.available_memory_mb) (of_uint 1024)

      active : F
      active = mul (of_int worker.active_workload_count) (of_uint 10)

      bonus : F
      bonus = if is_cached workload.model_id worker.cached_models then of_uint 100 else of_uint 0

  unfoldable pub score_worker : Workload F → Worker F → F
  unfolding explain_worker_score
  score_worker workload worker = (explain_worker_score workload worker).total
