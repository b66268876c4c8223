-- ===== src/Telemetry/Collector.antt =====
-- internal/telemetry: collector.go and service.go.
pub mod Laws
pub mod Examples
use aegis_llm_control_plane.Base.{
  String, Bool, false, List, [], ◌∷◌, ◌++◌, Option, none, some, ◌==◌, ok, err, M, Result, proceed,
  ◌>>=◌, ◌>>◌, pure, if◌then◌else◌,
}
use aegis_llm_control_plane.Base.Dict.{Dict, lookup, insert}
use aegis_llm_control_plane.Base.Int.{pos, Time, Duration, le_int}
use aegis_llm_control_plane.Base.Float.{Float64}
use aegis_llm_control_plane.Errors.{Error, Outcome, non_positive_ticker}
use aegis_llm_control_plane.Cluster.Types.{Worker, Workload, Snapshot}
use aegis_llm_control_plane.Ticker.{Event, again, run_loop}
use aegis_llm_control_plane.Telemetry.Types.{Record}
use aegis_llm_control_plane.Telemetry.Memory.{Store}

-- A store with what `ctx.Err()` is at the calls to come.
pub record Calls (S : Type 0) : Type 0 where
  pub store : S
  pub contexts : List (Option Error)

abbrev pub context : List (Option Error) → Option Error
context [] = none
context (c ∷ cs) = c

abbrev pub contexts_left : List (Option Error) → List (Option Error)
contexts_left [] = []
contexts_left (c ∷ cs) = cs

module _ {F : Type 0} where
  -- A missing key reads as an empty slice.
  abbrev pub group_of : Option (List (Workload F)) → List (Workload F)
  group_of none = []
  group_of (some ws) = ws

  -- The first loop.
  unfoldable pub workloads_by_worker :
      List (Workload F) → Dict (List (Workload F)) → Dict (List (Workload F))
  workloads_by_worker [] d = d
  workloads_by_worker (w ∷ ws) d = workloads_by_worker ws (
      if w.assigned_worker_id == ""
      then d
      else insert w.assigned_worker_id (group_of (lookup w.assigned_worker_id d) ++ (w ∷ [])) d)

module _ {F : Type 0} ⦃fl : Float64 F⦄ where
  -- The fields that a record of an idle worker leaves out are the zero values.
  unfoldable pub worker_record : Time → Worker F → Record F
  worker_record timestamp worker = record {
    timestamp = timestamp;
    worker_id = worker.id;
    worker_state = worker.state;
    available_memory_mb = worker.available_memory_mb;
    total_memory_mb = worker.total_memory_mb;
    compute_utilization = worker.compute_utilization;
    memory_utilization = worker.memory_utilization;
    active_workload_count = worker.active_workload_count;
    topology_domain = worker.topology_domain;
    workload_id = "";
    workload_state = "";
    model_id = "";
    priority = "";
    required_memory_mb = 0;
    estimated_compute = fl.of_uint 0;
    latency_slo = pos 0;
    checkpointable = false;
    assigned_worker_id = "";
  }

  unfoldable pub workload_record : Time → Worker F → Workload F → Record F
  workload_record timestamp worker workload = record {
    timestamp = timestamp;
    worker_id = worker.id;
    worker_state = worker.state;
    available_memory_mb = worker.available_memory_mb;
    total_memory_mb = worker.total_memory_mb;
    compute_utilization = worker.compute_utilization;
    memory_utilization = worker.memory_utilization;
    active_workload_count = worker.active_workload_count;
    topology_domain = worker.topology_domain;
    workload_id = workload.id;
    workload_state = workload.state;
    model_id = workload.model_id;
    priority = workload.priority;
    required_memory_mb = workload.required_memory_mb;
    estimated_compute = workload.estimated_compute;
    latency_slo = workload.latency_slo;
    checkpointable = workload.checkpointable;
    assigned_worker_id = workload.assigned_worker_id;
  }

-- A collector's store is one that implements the interface.
module _ {F S : Type 0} ⦃fl : Float64 F⦄ (store : Store F S) where
  -- `c.store.Append(ctx, record)`
  abbrev pub append_record : Record F → M (Calls S) Error (Unit {0})
  append_record r s =
      let p = store.append (context s.contexts) r s.store in
      (p.0, record { store = p.1; contexts = contexts_left s.contexts })

  -- The inner loop.
  unfoldable pub record_workloads :
      Time → Worker F → List (Workload F) → M (Calls S) Error (Unit {0})
  record_workloads timestamp worker [] = pure tt
  record_workloads timestamp worker (w ∷ ws) =
      append_record (workload_record timestamp worker w) >> record_workloads timestamp worker ws

  -- One round of the second loop.
  unfoldable pub record_worker : Time → Worker F → List (Workload F) → M (Calls S) Error (Unit {0})
  record_worker timestamp worker [] = append_record (worker_record timestamp worker)
  record_worker timestamp worker (w ∷ ws) = record_workloads timestamp worker (w ∷ ws)

  unfoldable pub record_workers :
      Time → Dict (List (Workload F)) → List (Worker F) → M (Calls S) Error (Unit {0})
  record_workers timestamp groups [] = pure tt
  record_workers timestamp groups (worker ∷ workers) =
      record_worker timestamp worker (group_of (lookup worker.id groups))
      >> record_workers timestamp groups workers

  unfoldable pub record_snapshot : Snapshot F → Time → M (Calls S) Error (Unit {0})
  record_snapshot snapshot timestamp =
      record_workers timestamp (workloads_by_worker snapshot.workloads []) snapshot.workers

  -- `provided` is what the provider's `Snapshot` returns.
  unfoldable pub collect_at : Outcome (Snapshot F) → Time → M (Calls S) Error (Unit {0})
  collect_at (err e) timestamp s = (err e, s)
  collect_at (ok snapshot) timestamp s = record_snapshot snapshot timestamp s

  -- `start` is the clock at the start, `first` what the provider then returns, and a tick brings
  -- its time and what the provider returns.
  unfoldable pub run :
      Duration
      → Time
      → Outcome (Snapshot F)
      → List (Event (Time × Outcome (Snapshot F)))
      → Calls S
      → Option Error × Calls S
  run interval start first events s =
      let p = collect_at first start s in
      again p.0
        (if le_int interval (pos 0)
          then (λ t. (some non_positive_ticker, t))
          else run_loop (λ t. collect_at t.1 t.0) events)
        p.1
