-- ===== src/Cluster/Health.antt =====
-- internal/cluster/health.go: a worker's state from its last heartbeat.
pub mod Laws
use aegis_llm_control_plane.Base.{◌==◌, if◌then◌else◌}
use aegis_llm_control_plane.Base.Int.{Time, Duration, seconds, time_sub, is_zero_time, le_int}
use aegis_llm_control_plane.Cluster.Types.{
  Worker, WorkerState, worker_healthy, worker_suspected, worker_unhealthy, worker_draining,
}

pub record WorkerHealthConfig : Type 0 where
  pub suspected_after : Duration
  pub unhealthy_after : Duration

abbrev pub default_worker_health_config : WorkerHealthConfig
default_worker_health_config = record { suspected_after = seconds 15; unhealthy_after = seconds 30 }

unfoldable pub evaluate_worker_health :
    {F : Type 0} → Worker F → Time → WorkerHealthConfig → WorkerState
evaluate_worker_health worker now config =
    if worker.state == worker_draining
    then worker_draining
    else if is_zero_time worker.last_heartbeat
    then worker_unhealthy
    else if le_int config.unhealthy_after since_heartbeat
    then worker_unhealthy
    else if le_int config.suspected_after since_heartbeat
    then worker_suspected
    else worker_healthy
  where
    since_heartbeat : Duration
    since_heartbeat = time_sub now worker.last_heartbeat
