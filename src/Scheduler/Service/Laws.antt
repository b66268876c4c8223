-- ===== src/Scheduler/Service/Laws.antt =====
-- internal/scheduler/service.go: one pass, with the others' turns.
use aegis_llm_control_plane.Base.{
  sym, subst, String, List, [], ◌∷◌, Option, none, some, ok, err, Result, ◌>>=◌, pure, Bool-cases,
  inl, inr, if◌then◌else◌,
}
use aegis_llm_control_plane.Base.Int.{pos, le_int, Time, Duration}
use aegis_llm_control_plane.Base.Float.{Float64}
use aegis_llm_control_plane.Errors.{Error, is_no_eligible_worker}
use aegis_llm_control_plane.Cluster.Types.{Workload, Snapshot}
use aegis_llm_control_plane.Cluster.Store.{Store, snapshot, commit_placement}
use aegis_llm_control_plane.Cluster.Store.Accounting.Traces.{IsSound, Step-IsSound, commits}
use aegis_llm_control_plane.Shared.{Sys, Run, call, Good, Keeps, Keeps-bind, Keeps-call}
use aegis_llm_control_plane.Ticker.{Event, again-keeps, run_loop, run_loop-keeps}
use aegis_llm_control_plane.Risk.{Evaluator}
use aegis_llm_control_plane.Scheduler.Predictive.{PredictionProvider}
use aegis_llm_control_plane.Scheduler.Placement.{
  place_workload, place_workload_with_decision, place_workload_predictive,
  place_workload_predictive_with_decision, place_workload_risk_aware,
  place_workload_risk_aware_with_decision,
}
use aegis_llm_control_plane.Scheduler.Placement.Laws.{Keeps-place_with, snapshot_store}
use aegis_llm_control_plane.Scheduler.Service.{
  from_snapshot, Service, Partial, by_policy, service_place_workload, and_then, place_all,
  schedule_pending, outcome, pass, run, Moment, answering,
}

module _ {F : Type 0} where
  without_decision : {D : Type 0} → Run F (Workload F × D) → Run F (Workload F)
  without_decision m = m >>= λ r. pure r.0

  Keeps-without :
      {D : Type 0} (P : Store F → Type 0) (m : Run F (Workload F × D))
      → Keeps P m
      → Keeps P (without_decision m)
  unfolding without_decision
  Keeps-without P m keep = Keeps-bind P m (λ r. pure r.0) keep λ r s g. g

module _ {F : Type 0} ⦃fl : Float64 F⦄ where
  pub Keeps-service_place_workload :
      (P : Store F → Type 0)
      → ((ctx : Option Error) (a b : String) (x : Store F) → P x → P (commit_placement ctx a b x).1)
      → (service : Service F) (now : Time) (id : String)
      → Keeps P (service_place_workload service now id)
  unfolding service_place_workload place_workload place_workload_with_decision
      place_workload_predictive place_workload_predictive_with_decision place_workload_risk_aware
      place_workload_risk_aware_with_decision without_decision
  Keeps-service_place_workload P keep service now id =
      by_evaluator service.evaluator service.predictions
    where
      by_evaluator :
          (e : Option Evaluator) (p : Option (PredictionProvider F))
          → Keeps P (by_policy e p now id)
      by_evaluator (some e) p = Keeps-without P _ (Keeps-place_with _ _ id P keep)
      by_evaluator none (some get) = Keeps-without P _ (Keeps-place_with _ _ id P keep)
      by_evaluator none none = Keeps-without P _ (Keeps-place_with _ _ id P keep)

  and_then-Good :
      (P : Store F → Type 0) (r : Result Error (Workload F)) (rest : Partial F (List (Workload F)))
      (s : Sys F)
      → Good P s
      → Good P (rest s).1
      → Good P (and_then r rest s).1
  and_then-Good P (ok k) rest s g t = t
  and_then-Good P (err e) rest s g t = elim (Bool-cases (is_no_eligible_worker e)) [
    | inl y ↦ subst (λ b. Good P (if b then rest s else (([], some e), s)).1) (sym y) t
    | inr n ↦ subst (λ b. Good P (if b then rest s else (([], some e), s)).1) (sym n) g
  ]

  place_all-Good :
      (P : Store F → Type 0)
      → ((ctx : Option Error) (a b : String) (x : Store F) → P x → P (commit_placement ctx a b x).1)
      → (service : Service F) (now : Time) (ws : List (Workload F)) (s : Sys F) → Good P s
      → Good P (place_all service now ws s).1
  unfolding place_all
  place_all-Good P keep service now [] s g = g
  place_all-Good P keep service now (w ∷ ws) s g =
      let after = Keeps-service_place_workload P keep service now w.id s g in
      and_then-Good P (service_place_workload service now w.id s).0 (place_all service now ws) _
        after (place_all-Good P keep service now ws _ after)

  from_snapshot-Good :
      (P : Store F → Type 0)
      → ((ctx : Option Error) (a b : String) (x : Store F) → P x → P (commit_placement ctx a b x).1)
      → (service : Service F) (now : Time) (r : Result Error (Snapshot F)) (s : Sys F) → Good P s
      → Good P (from_snapshot service now r s).1
  from_snapshot-Good P keep service now (ok snap) s g = place_all-Good P keep service now _ s g
  from_snapshot-Good P keep service now (err e) s g = g

  -- What commits and the others keep, a pass keeps, whatever its outcome.
  pub schedule_pending-Good :
      (P : Store F → Type 0)
      → ((ctx : Option Error) (a b : String) (x : Store F) → P x → P (commit_placement ctx a b x).1)
      → (service : Service F) (now : Time) (s : Sys F) → Good P s
      → Good P (schedule_pending service now s).1
  unfolding schedule_pending
  schedule_pending-Good P keep service now s g =
      from_snapshot-Good P keep service now (call snapshot s).0 (call snapshot s).1
        (Keeps-call P snapshot (λ ctx x p. subst P (sym (snapshot_store ctx x)) p) s g)

  outcome-Good :
      (P : Store F → Type 0) (r : (List (Workload F) × Option Error) × Sys F)
      → Good P r.1
      → Good P (outcome r).1
  outcome-Good P ((placed, none), s) g = g
  outcome-Good P ((placed, some e), s) g = g

  pass-Good :
      (service : Service F) (moment : Moment F) (s : Sys F)
      → Good IsSound s
      → Good IsSound (pass service moment s).1
  unfolding pass
  pass-Good service moment s g =
      let now_service = answering moment.get service in
      outcome-Good IsSound (schedule_pending now_service moment.now s) (
        schedule_pending-Good IsSound (λ ctx a b x h. Step-IsSound (commits ctx a b) h) now_service
          moment.now s g)

  -- The scheduling service keeps a store sound over its whole run when the others do, by any
  -- policy, for any interval, any forecasts at each tick, and any number of ticks before it ends or
  -- is left waiting.
  pub run-IsSound :
      (service : Service F) (interval : Duration) (start : Moment F)
      (events : List (Event (Moment F))) (s : Sys F)
      → Good IsSound s
      → Good IsSound (run service interval start events s).1
  unfolding run
  run-IsSound service interval start events s g = elim (Bool-cases (le_int interval (pos 0))) [
    | inl never ↦ rw never g
    | inr often ↦ rw often (
        again-keeps (Good IsSound) (pass service start s).0 (run_loop (pass service) events)
          (pass service start s).1 (pass-Good service start s g)
          (run_loop-keeps (Good IsSound) (pass service) events (pass-Good service)))
  ]
