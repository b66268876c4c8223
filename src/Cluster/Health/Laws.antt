-- ===== src/Cluster/Health/Laws.antt =====
-- internal/cluster/health.go: the health of a worker over time.
use aegis_llm_control_plane.Base.{ℕ, ◌≤◌, ◌≡◌, ◌==◌, if◌then◌else◌, arith, Bool-cases, inl, inr}
use aegis_llm_control_plane.Base.Int.{Time, ◌≤ℤ◌, time_sub, time_sub_mono, le_int, is_zero_time}
use aegis_llm_control_plane.Cluster.Types.{
  Worker, WorkerState, worker_healthy, worker_suspected, worker_unhealthy, worker_draining,
}
use aegis_llm_control_plane.Cluster.Health.{WorkerHealthConfig, evaluate_worker_health}

-- How bad a state is.
unfoldable pub severity : WorkerState → ℕ
severity st =
    if st == worker_healthy
    then 0
    else if st == worker_suspected
    then 1
    else if st == worker_unhealthy
    then 2
    else 3

severity-evaluate_worker_health :
    {F : Type 0} (w : Worker F) (now : Time) (config : WorkerHealthConfig)
    → severity (evaluate_worker_health w now config) ≡ (
        if w.state == worker_draining
        then 3
        else if is_zero_time w.last_heartbeat
        then 2
        else if le_int config.unhealthy_after (time_sub now w.last_heartbeat)
        then 2
        else if le_int config.suspected_after (time_sub now w.last_heartbeat)
        then 1
        else 0)
unfolding evaluate_worker_health severity
severity-evaluate_worker_health w now config = elim (Bool-cases (w.state == worker_draining)) [
  | inl t ↦ rw t
  | inr t ↦ rw t (elim (Bool-cases (is_zero_time w.last_heartbeat)) [
    | inl u ↦ rw u
    | inr u ↦
        rw u (elim (Bool-cases (le_int config.unhealthy_after (time_sub now w.last_heartbeat))) [
          | inl v ↦ rw v
          | inr v ↦
              rw v
                (elim (Bool-cases (le_int config.suspected_after (time_sub now w.last_heartbeat))) [
                  | inl x ↦ rw x
                  | inr x ↦ rw x
                ])
        ])
  ])
]

-- At a later time, with no heartbeat in between, the health of a worker is not better, whatever
-- the thresholds.
pub evaluate_worker_health_mono :
    {F : Type 0} (w : Worker F) (now later : Time) (config : WorkerHealthConfig)
    → now ≤ℤ later
    → severity (evaluate_worker_health w now config)
      ≤ severity (evaluate_worker_health w later config)
evaluate_worker_health_mono w now later config h = ground (
  arith,
  time_sub_mono now later w.last_heartbeat h,
  severity-evaluate_worker_health w now config,
  severity-evaluate_worker_health w later config,
)
