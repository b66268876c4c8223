-- ===== src/Scheduler/Service/Live.antt =====
-- internal/scheduler/service.go: when `PlaceWorkload` succeeds.
use aegis_llm_control_plane.Base.{
  ◌≡◌, ◌≤◌, refl, ◌∙◌, ap, String, true, false, eq_iff, eq_refl, List, [], ◌∷◌, Option, none, some,
  ok, err, All, ◌>>=◌, pure, arith, Result-cases, inl, inr,
}
use aegis_llm_control_plane.Base.Dict.{Dict, lookup, values, Holds}
use aegis_llm_control_plane.Base.Distinct.{Distinct, values-found, Holds-tail, All-lookup}
use aegis_llm_control_plane.Base.Int.{Time}
use aegis_llm_control_plane.Base.Float.{Float64}
use aegis_llm_control_plane.Errors.{Error, Outcome}
use aegis_llm_control_plane.Cluster.Types.{Worker, Workload, worker_healthy}
use aegis_llm_control_plane.Cluster.Topology.{matches_topology_requirement}
use aegis_llm_control_plane.Cluster.Store.{Store, is_schedulable}
use aegis_llm_control_plane.Cluster.Store.Valid.{IsWellFormed}
use aegis_llm_control_plane.Risk.{Evaluator}
use aegis_llm_control_plane.Shared.{Run, alone}
use aegis_llm_control_plane.Scheduler.Score.{is_eligible, score_worker}
use aegis_llm_control_plane.Scheduler.Select.{
  select_from, or_no_worker, prefer_score, select_worker,
}
use aegis_llm_control_plane.Scheduler.Select.Laws.{
  or_no_worker_error, picked_none, picked, picked-All,
}
use aegis_llm_control_plane.Scheduler.Predictive.{
  Outlook, PredictionProvider, predictive_total, prefer_higher, select_worker_predictive,
}
use aegis_llm_control_plane.Scheduler.RiskAware.{
  explain_risk_aware_worker_score, prefer_less_risk, select_worker_risk_aware,
}
use aegis_llm_control_plane.Scheduler.Placement.{
  place_with, find_by_id, schedulable_workload, place_workload, place_workload_with_decision,
  place_workload_predictive, place_workload_predictive_with_decision, place_workload_risk_aware,
  place_workload_risk_aware_with_decision,
}
use aegis_llm_control_plane.Scheduler.Placement.Laws.{snapshot_of, place_with_succeeds}
use aegis_llm_control_plane.Scheduler.Service.{Service, by_policy, service_place_workload}

module _ {F : Type 0} where
  find_by_id-values :
      (id : String) (m : Dict (Workload F))
      → Distinct m
      → Holds (λ k v. v.id ≡ k) m
      → find_by_id id (values m) ≡ lookup id m
  unfolding lookup
  find_by_id-values id [] d own = refl
  find_by_id-values id ((k, v) ∷ m) (new, d) own =
      let mine : v.id ≡ k = own k v (rw (eq_refl k) refl) in
      rw (mine, find_by_id-values id m d (Holds-tail _ k v m new own)) refl

  -- A selection that returns an eligible worker of the list, and fails only if there is none.
  record IsSelector (select : Workload F → List (Worker F) → Outcome (Worker F)) : Type 0 where
    picks :
        (k : Workload F) (m : Dict (Worker F)) (w : Worker F)
        → All (λ v. lookup v.id m ≡ some v) (values m)
        → select k (values m) ≡ ok w
        → (lookup w.id m ≡ some w) × (is_eligible k w ≡ true)
    fails :
        (k : Workload F) (ws : List (Worker F)) (e : Error)
        → select k ws ≡ err e
        → All (λ w. is_eligible k w ≡ false) ws

  from_loop :
      {B : Type 0} (value : Workload F → Worker F → B) (prefer : _)
      → IsSelector (λ k ws. or_no_worker (select_from (is_eligible k) (value k) prefer none ws))
  from_loop value prefer = record {
    picks = λ k m w all e.
        let (_, el, _) = picked (is_eligible k) (value k) prefer w (values m) e in
        (
          picked-All (is_eligible k) (value k) prefer (λ v. lookup v.id m ≡ some v) w (values m) all
              e,
          el,
        );
    fails = λ k ws e h.
        (picked_none (is_eligible k) (value k) prefer ws).0 (h ∙ ap err (or_no_worker_error _ e h));
  }

  eligible_demands :
      (k : Workload F) (w : Worker F)
      → is_eligible k w ≡ true
      → (w.state ≡ worker_healthy)
        × (matches_topology_requirement k w ≡ true)
        × (k.required_memory_mb ≤ w.available_memory_mb)
  unfolding is_eligible
  eligible_demands k w h = ground (arith, eq_iff w.state worker_healthy)

  -- The workload went onto an eligible worker of the store.
  abbrev pub Lands : Store F → Workload F → Run F (Workload F) → Type 0
  Lands x k m =
      (w : Worker F) × (lookup w.id x.workers ≡ some w)
      × (is_eligible k w ≡ true)
      × ((m (alone x)).0 ≡ ok (record k { assigned_worker_id = w.id; state = "PLACED" }))

module _ {F : Type 0} ⦃fl : Float64 F⦄ where
  place_with-Lands :
      {D : Type 0} (select : Workload F → List (Worker F) → Outcome (Worker F))
      (decide : Workload F → Worker F → D)
      → IsSelector select
      → (x : Store F) (k : Workload F) (w : Worker F) → IsWellFormed x
      → Distinct x.workers
      → Distinct x.workloads
      → lookup k.id x.workloads ≡ some k
      → is_schedulable k.state ≡ true
      → lookup w.id x.workers ≡ some w
      → is_eligible k w ≡ true
      → Lands x k (place_with select decide k.id >>= λ r. pure r.0)
  place_with-Lands select decide sel x k w v dw dk fk sched fw el =
      elim (Result-cases (select k (values x.workers))) [
        | inr (e, h) ↦ absurd (
            cc (
              All-lookup (λ u. is_eligible k u ≡ false) x.workers w.id w
                  (sel.fails k (values x.workers) e h) fw,
              el,
            ))
        | inl (u, h) ↦
            let (fu, eu) =
              sel.picks k x.workers u
                (values-found (λ y. y.id) x.workers dw λ i y e. (v.workers i y e).own_id) h in
            let (healthy, topology, room) = eligible_demands k u eu in
            let found =
              find_by_id-values k.id x.workloads dk (λ i y e. (v.workloads i y e).own_id) ∙ fk in
            let stored : schedulable_workload k.id (snapshot_of x) ≡ ok k =
              rw (found, sched) refl in
            let done = place_with_succeeds select decide k.id x k u stored h (record {
              found_workload = fk;
              found_worker = fu;
              healthy = healthy;
              topology = topology;
              schedulable = sched;
              room = room;
            }) in
            (u, fu, eu, rw done refl)
      ]

  -- When nobody else acts and the context stays live, `PlaceWorkload` succeeds under every policy
  -- and whatever is predicted, if the store is well formed, with one entry for each ID, and has the
  -- workload, which can be scheduled, and some worker that is eligible for it: the workload
  -- returned is the stored one, PLACED and assigned to an eligible worker of the store.
  pub service_place_workload-Lands :
      (service : Service F) (now : Time) (x : Store F) (k : Workload F) (w : Worker F)
      → IsWellFormed x
      → Distinct x.workers
      → Distinct x.workloads
      → lookup k.id x.workloads ≡ some k
      → is_schedulable k.state ≡ true
      → lookup w.id x.workers ≡ some w
      → is_eligible k w ≡ true
      → Lands x k (service_place_workload service now k.id)
  unfolding service_place_workload place_workload place_workload_with_decision
      place_workload_predictive place_workload_predictive_with_decision place_workload_risk_aware
      place_workload_risk_aware_with_decision select_worker select_worker_predictive
      select_worker_risk_aware
  service_place_workload-Lands service now x k w v dw dk fk sched fw el =
      by_evaluator service.evaluator service.predictions
    where
      by_evaluator :
          (e : Option Evaluator) (p : Option (PredictionProvider F))
          → Lands x k (by_policy e p now k.id)
      by_evaluator (some e) p =
          let outlook : Outlook F = record { predictions = p; now = now } in
          place_with-Lands _ _
            (from_loop (explain_risk_aware_worker_score outlook (some e)) prefer_less_risk) x k w v
            dw dk fk sched fw el
      by_evaluator none (some get) =
          let outlook : Outlook F = record { predictions = some get; now = now } in
          place_with-Lands _ _ (from_loop (predictive_total outlook) prefer_higher) x k w v dw dk fk
            sched fw el
      by_evaluator none none =
          place_with-Lands _ _ (from_loop score_worker prefer_score) x k w v dw dk fk sched fw el
