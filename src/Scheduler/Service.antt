-- ===== src/Scheduler/Service.antt =====
-- internal/scheduler/service.go: one pass over the pending workloads.
pub mod Laws
pub mod Alone
pub mod Live
use aegis_llm_control_plane.Base.{
  String, Bool, List, [], ◌∷◌, Option, none, some, ok, err, if◌then◌else◌, Result, proceed, ◌>>=◌,
  pure, fail, filter, M,
}
use aegis_llm_control_plane.Base.Int.{pos, le_int, Time, Duration}
use aegis_llm_control_plane.Base.Float.{Float64}
use aegis_llm_control_plane.Errors.{Error, interval_not_positive, is_no_eligible_worker}
use aegis_llm_control_plane.Cluster.Types.{Workload, Snapshot}
use aegis_llm_control_plane.Cluster.Store.{is_schedulable, snapshot}
use aegis_llm_control_plane.Shared.{Run, Sys, call}
use aegis_llm_control_plane.Ticker.{Event, again, run_loop}
use aegis_llm_control_plane.Risk.{Evaluator}
use aegis_llm_control_plane.Scheduler.Queue.{order_workloads_with_aging}
use aegis_llm_control_plane.Scheduler.Predictive.{PredictionProvider, Outlook}
use aegis_llm_control_plane.Scheduler.Placement.{
  place_workload, place_workload_predictive, place_workload_risk_aware,
}

-- The service without its store, which every method is given. `none` is nil.
pub record Service (F : Type 0) : Type 0 where
  pub predictions : Option (PredictionProvider F)
  pub evaluator : Option Evaluator

module _ {F : Type 0} where
  abbrev pub new_service : Service F
  new_service = record { predictions = none; evaluator = none }

  abbrev pub new_predictive_service : PredictionProvider F → Service F
  new_predictive_service get = record { predictions = some get; evaluator = none }

  abbrev pub new_risk_aware_service : PredictionProvider F → Evaluator → Service F
  new_risk_aware_service get evaluator = record {
    predictions = some get;
    evaluator = some evaluator;
  }

-- What a pass finds besides the store: the clock, and the forecasts that the provider has by then.
pub record Moment (F : Type 0) : Type 0 where
  pub now : Time
  pub get : PredictionProvider F

-- A run that returns what it did so far together with an error, if any.
abbrev pub Partial : Type 0 → Type 0 → Type 0
Partial F A = Sys F → (A × Option Error) × Sys F

module _ {F : Type 0} ⦃fl : Float64 F⦄ where
  -- `now` is the clock at the decision.
  abbrev pub by_policy :
      Option Evaluator → Option (PredictionProvider F) → Time → String → Run F (Workload F)
  by_policy (some evaluator) predictions now id =
      place_workload_risk_aware (record { predictions = predictions; now = now }) (some evaluator)
        id
  by_policy none (some get) now id =
      place_workload_predictive (record { predictions = some get; now = now }) id
  by_policy none none now id = place_workload id

  unfoldable pub service_place_workload : Service F → Time → String → Run F (Workload F)
  service_place_workload s now id = by_policy s.evaluator s.predictions now id

  -- The loop over the ordered workloads: one for which no worker is eligible is passed over, and
  -- any other error ends the pass.
  abbrev pub and_then :
      Result Error (Workload F) → Partial F (List (Workload F)) → Partial F (List (Workload F))
  and_then (ok placed) rest s = let p = rest s in ((placed ∷ p.0.0, p.0.1), p.1)
  and_then (err e) rest s = if is_no_eligible_worker e then rest s else (([], some e), s)

  unfoldable pub place_all : Service F → Time → List (Workload F) → Partial F (List (Workload F))
  place_all service now [] s = (([], none), s)
  place_all service now (w ∷ ws) s =
      let p = service_place_workload service now w.id s in
      and_then p.0 (place_all service now ws) p.1

  abbrev pub pending : List (Workload F) → List (Workload F)
  pending = filter (λ w. is_schedulable w.state)

  abbrev pub from_snapshot :
      Service F → Time → Result Error (Snapshot F) → Partial F (List (Workload F))
  from_snapshot service now (err e) s = (([], some e), s)
  from_snapshot service now (ok snap) s =
      place_all service now (order_workloads_with_aging (pending snap.workloads) now) s

  unfoldable pub schedule_pending : Service F → Time → Partial F (List (Workload F))
  schedule_pending service now s = let p = call snapshot s in from_snapshot service now p.0 p.1

  -- The error of a pass, for the loop: its placed workloads are dropped.
  abbrev pub outcome : (List (Workload F) × Option Error) × Sys F → Result Error (Unit {0}) × Sys F
  outcome ((placed, none), s) = (ok tt, s)
  outcome ((placed, some e), s) = (err e, s)

  -- The service while its provider, if it has one, answers like this.
  abbrev pub answering : PredictionProvider F → Service F → Service F
  answering get service = record service {
    predictions = elim service.predictions [ some old ↦ some get | none ↦ none ];
  }

  -- One reading of the clock and one state of the provider serve a pass.
  unfoldable pub pass : Service F → Moment F → M (Sys F) Error (Unit {0})
  pass service moment s = outcome (schedule_pending (answering moment.get service) moment.now s)

  -- Each event brings the moment of its pass, as `start` does for the first.
  unfoldable pub run :
      Service F → Duration → Moment F → List (Event (Moment F)) → Sys F → Option Error × Sys F
  run service interval start events s =
      if le_int interval (pos 0)
      then (some interval_not_positive, s)
      else let p = pass service start s in again p.0 (run_loop (pass service) events) p.1
