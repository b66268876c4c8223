-- ===== src/Scheduler/Placement.antt =====
-- internal/scheduler: placement.go, predictive_placement.go and risk_aware_placement.go. A placement
-- takes a snapshot, selects from it, and commits: two calls of the store, with turns of others
-- before each. The three files differ in how they select and in what they explain.
pub mod Laws
use aegis_llm_control_plane.Base.{
  String, Bool, ◌==◌, List, [], ◌∷◌, ◌++◌, Option, none, some, ok, err, if◌then◌else◌, Result,
  proceed, ◌>>=◌, pure, lift, guard,
}
use aegis_llm_control_plane.Base.Float.{Float64}
use aegis_llm_control_plane.Errors.{Error, Outcome, workload_not_found, unschedulable}
use aegis_llm_control_plane.Cluster.Types.{Worker, Workload, Snapshot}
use aegis_llm_control_plane.Cluster.Store.{is_schedulable, snapshot, commit_placement}
use aegis_llm_control_plane.Shared.{Run, call}
use aegis_llm_control_plane.Risk.{Evaluator}
use aegis_llm_control_plane.Scheduler.Score.{WorkerScoreBreakdown, explain_worker_score}
use aegis_llm_control_plane.Scheduler.Select.{select_worker}
use aegis_llm_control_plane.Scheduler.Predictive.{
  Outlook, PredictiveScoreBreakdown, explain_predictive_worker_score, select_worker_predictive,
}
use aegis_llm_control_plane.Scheduler.RiskAware.{
  RiskAwareScoreBreakdown, explain_risk_aware_worker_score, select_worker_risk_aware,
}

pub record PlacementDecision (F : Type 0) : Type 0 where
  pub workload_id : String
  pub worker_id : String
  pub score : WorkerScoreBreakdown F
  pub reasons : List String

module _ {F : Type 0} where
  -- The loop over `snapshot.Workloads`.
  abbrev pub find_by_id : String → List (Workload F) → Option (Workload F)
  find_by_id id [] = none
  find_by_id id (k ∷ ks) = let rest = find_by_id id ks in if k.id == id then some k else rest

  abbrev if_schedulable : Option (Workload F) → String → Outcome (Workload F)
  if_schedulable none id = err (workload_not_found id)
  if_schedulable (some k) id =
      if is_schedulable k.state then ok k else err (unschedulable k.id k.state)

  abbrev pub schedulable_workload : String → Snapshot F → Outcome (Workload F)
  schedulable_workload id snap = if_schedulable (find_by_id id snap.workloads) id

  unfoldable pub place_with :
      {D : Type 0}
      → (Workload F → List (Worker F) → Outcome (Worker F))
      → (Workload F → Worker F → D)
      → String
      → Run F (Workload F × D)
  place_with select decide workload_id = do
    snap ← call snapshot
    workload ← lift (schedulable_workload workload_id snap)
    selected ← lift (select workload snap.workers)
    placed ← call (λ ctx. commit_placement ctx workload.id selected.id)
    pure (placed, decide workload selected)

abbrev reason_if : Bool → String → List String
reason_if b text = if b then text ∷ [] else []

abbrev or_default : List String → List String
or_default [] = "worker had the highest eligible scheduling score" ∷ []
or_default (r ∷ rs) = r ∷ rs

module _ {F : Type 0} ⦃fl : Float64 F⦄ where
  open fl use {of_uint, lt, le}

  unfoldable pub build_placement_reasons : WorkerScoreBreakdown F → List String
  build_placement_reasons score = or_default (
      reason_if (lt (of_uint 0) score.model_locality_bonus)
        "requested model is already cached on the worker"
      ++ (reason_if (lt score.compute_penalty (of_uint 50))
            "worker has relatively low compute utilization"
          ++ (reason_if (lt score.memory_penalty (of_uint 50))
                "worker has relatively low memory utilization"
              ++ reason_if (le score.active_workload_penalty (of_uint 10))
                  "worker has a low active workload count")))

  abbrev pub decision : Workload F → Worker F → PlacementDecision F
  decision workload selected = record {
    workload_id = workload.id;
    worker_id = selected.id;
    score = explain_worker_score workload selected;
    reasons = build_placement_reasons (explain_worker_score workload selected);
  }

  unfoldable pub place_workload_with_decision : String → Run F (Workload F × PlacementDecision F)
  place_workload_with_decision = place_with select_worker decision

  -- The decision is dropped.
  unfoldable pub place_workload : String → Run F (Workload F)
  place_workload workload_id = do
    (placed, _) ← place_workload_with_decision workload_id
    pure placed

  unfoldable pub place_workload_predictive_with_decision :
      Outlook F → String → Run F (Workload F × PredictiveScoreBreakdown F)
  place_workload_predictive_with_decision outlook =
      place_with (select_worker_predictive outlook) (explain_predictive_worker_score outlook)

  unfoldable pub place_workload_predictive : Outlook F → String → Run F (Workload F)
  place_workload_predictive outlook workload_id = do
    (placed, _) ← place_workload_predictive_with_decision outlook workload_id
    pure placed

  unfoldable pub place_workload_risk_aware_with_decision :
      Outlook F → Option Evaluator → String → Run F (Workload F × RiskAwareScoreBreakdown F)
  place_workload_risk_aware_with_decision outlook evaluator =
      place_with (select_worker_risk_aware outlook evaluator)
        (explain_risk_aware_worker_score outlook evaluator)

  unfoldable pub place_workload_risk_aware :
      Outlook F → Option Evaluator → String → Run F (Workload F)
  place_workload_risk_aware outlook evaluator workload_id = do
    (placed, _) ← place_workload_risk_aware_with_decision outlook evaluator workload_id
    pure placed
