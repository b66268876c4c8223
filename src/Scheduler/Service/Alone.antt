-- ===== src/Scheduler/Service/Alone.antt =====
-- internal/scheduler/service.go: a pass when nobody else acts on the store.
use aegis_llm_control_plane.Base.{
  ◌≡◌, refl, sym, ◌∙◌, ap, subst, String, List, [], ◌∷◌, Option, none, some, ok, err, Result, All,
  proceed, ◌>>=◌, pure, lift, bind_ok, ok_injective, Bool-cases, inl, inr, if◌then◌else◌,
}
use aegis_llm_control_plane.Base.Dict.{Dict, insert}
use aegis_llm_control_plane.Base.Int.{Time}
use aegis_llm_control_plane.Base.Float.{Float64}
use aegis_llm_control_plane.Errors.{Error, Outcome, is_no_eligible_worker}
use aegis_llm_control_plane.Cluster.Types.{Worker, Workload}
use aegis_llm_control_plane.Cluster.Store.{Store, Method, snapshot, commit_placement}
use aegis_llm_control_plane.Cluster.Store.Commit.{commit_placement_atomic}
use aegis_llm_control_plane.Risk.{Evaluator}
use aegis_llm_control_plane.Shared.{
  Run, Sys, call, alone, turns_left, Spares, Spares-bind, Spares-last, Spares-call, Reads-call,
}
use aegis_llm_control_plane.Scheduler.Predictive.{PredictionProvider}
use aegis_llm_control_plane.Scheduler.Placement.{
  place_with, schedulable_workload, place_workload, place_workload_with_decision,
  place_workload_predictive, place_workload_predictive_with_decision, place_workload_risk_aware,
  place_workload_risk_aware_with_decision,
}
use aegis_llm_control_plane.Scheduler.Placement.Laws.{place_with_ok}
use aegis_llm_control_plane.Scheduler.Service.{
  Service, Partial, by_policy, service_place_workload, and_then, place_all, schedule_pending,
}

module _ {F : Type 0} where
  snapshot_reads : (x : Store F) → (snapshot none x).1 ≡ x
  unfolding snapshot
  snapshot_reads x = refl

  Spares-place_with :
      {D : Type 0} (select : Workload F → List (Worker F) → Outcome (Worker F))
      (decide : Workload F → Worker F → D) (id : String)
      → Spares (place_with select decide id)
  unfolding place_with
  Spares-place_with select decide id =
      Spares-bind (call snapshot) _ (Reads-call snapshot snapshot_reads) λ snap.
        Spares-bind (lift (schedulable_workload id snap)) _ (λ x. refl)
          λ k.
            Spares-bind (lift (select k snap.workers)) _ (λ x. refl)
              λ w.
                Spares-last (call (λ ctx. commit_placement ctx k.id w.id))
                  (λ placed. (placed, decide k w))
                  (Spares-call _ (λ x e h. commit_placement_atomic x none k.id w.id e h))

  Spares-placed :
      {D : Type 0} (select : Workload F → List (Worker F) → Outcome (Worker F))
      (decide : Workload F → Worker F → D) (id : String)
      → Spares (place_with select decide id >>= λ r. pure r.0)
  Spares-placed select decide id =
      Spares-last (place_with select decide id) (λ r. r.0) (Spares-place_with select decide id)

  -- A run that no turn of others is left after, if none was left before.
  abbrev Calm : {A : Type 0} → Run F A → Type 0
  Calm m = (s : Sys F) → s.turns ≡ [] → (m s).1.turns ≡ []

  Calm-call : {A : Type 0} (m : Option Error → Method F A) → Calm (call m)
  unfolding call
  Calm-call m s e = ap turns_left e

  Calm-proceed :
      {A B : Type 0} (r : Result Error A) (f : A → Run F B)
      → ((a : A) → Calm (f a))
      → Calm (proceed r f)
  Calm-proceed (ok a) f h s e = h a s e
  Calm-proceed (err x) f h s e = e

  Calm-bind :
      {A B : Type 0} (m : Run F A) (f : A → Run F B)
      → Calm m
      → ((a : A) → Calm (f a))
      → Calm (m >>= f)
  Calm-bind m f c h s e = Calm-proceed (m s).0 f h (m s).1 (c s e)

  -- A run that places one workload: if it succeeds, it writes what it returns, and returns it
  -- PLACED.
  abbrev Logs : Run F (Workload F) → Type 0
  Logs m =
      (x : Store F) (k : Workload F)
      → (m (alone x)).0 ≡ ok k
      → ((m (alone x)).1.store.workloads ≡ insert k.id k x.workloads) × (k.state ≡ "PLACED")

  module _ {D : Type 0} (select : Workload F → List (Worker F) → Outcome (Worker F))
      (decide : Workload F → Worker F → D) (id : String) where
    Calm-placed : Calm (place_with select decide id >>= λ r. pure r.0)
    unfolding place_with
    Calm-placed =
        Calm-bind (place_with select decide id) _
          (Calm-bind (call snapshot) _ (Calm-call snapshot) λ snap.
            Calm-bind (lift (schedulable_workload id snap)) _ (λ s e. e)
              λ k.
                Calm-bind (lift (select k snap.workers)) _ (λ s e. e)
                  λ w.
                    Calm-bind (call (λ ctx. commit_placement ctx k.id w.id)) _ (Calm-call _)
                      λ placed s e. e)
          λ r s e. e

    Logs-placed : Logs (place_with select decide id >>= λ r. pure r.0)
    Logs-placed x k h =
        let (r, er, p) = bind_ok (place_with select decide id) (λ r. pure r.0) (alone x) k h in
        let same : r.0 ≡ k = ok_injective (sym (ap (λ y. y.0) p) ∙ h) in
        let (_, _, _, _, (k0, w0, _, placed, after)) =
          place_with_ok select decide id (alone x) r.0 r.1 er in
        (
          ap (λ y. y.1.store.workloads) p
              ∙ ap (λ y. y.workloads) after
              ∙ ap (λ j. insert j.id j x.workloads) (sym placed ∙ same),
          ap (λ j. j.state) (sym same ∙ placed),
        )

  -- The workloads after these have been written, one after the other.
  abbrev pub write_all : List (Workload F) → Dict (Workload F) → Dict (Workload F)
  write_all [] m = m
  write_all (k ∷ ks) m = write_all ks (insert k.id k m)

  -- The list that was returned is what was written, and all of it PLACED.
  abbrev pub IsLogged : Store F → (List (Workload F) × Option Error) × Sys F → Type 0
  IsLogged x p =
      (p.1.store.workloads ≡ write_all p.0.0 x.workloads) × All (λ k. k.state ≡ "PLACED") p.0.0

  is_alone : (s : Sys F) → s.turns ≡ [] → s ≡ alone s.store
  is_alone s e = λ i. record { store = s.store; turns = e i }

module _ {F : Type 0} ⦃fl : Float64 F⦄ where
  pub Spares-service_place_workload :
      (service : Service F) (now : Time) (id : String)
      → Spares (service_place_workload service now id)
  unfolding service_place_workload place_workload place_workload_with_decision
      place_workload_predictive place_workload_predictive_with_decision place_workload_risk_aware
      place_workload_risk_aware_with_decision
  Spares-service_place_workload service now id = by_evaluator service.evaluator service.predictions
    where
      by_evaluator :
          (e : Option Evaluator) (p : Option (PredictionProvider F)) → Spares (by_policy e p now id)
      by_evaluator (some e) p = Spares-placed _ _ id
      by_evaluator none (some get) = Spares-placed _ _ id
      by_evaluator none none = Spares-placed _ _ id

  Calm-service_place_workload :
      (service : Service F) (now : Time) (id : String)
      → Calm (service_place_workload service now id)
  unfolding service_place_workload place_workload place_workload_with_decision
      place_workload_predictive place_workload_predictive_with_decision place_workload_risk_aware
      place_workload_risk_aware_with_decision
  Calm-service_place_workload service now id = by_evaluator service.evaluator service.predictions
    where
      by_evaluator :
          (e : Option Evaluator) (p : Option (PredictionProvider F)) → Calm (by_policy e p now id)
      by_evaluator (some e) p = Calm-placed _ _ id
      by_evaluator none (some get) = Calm-placed _ _ id
      by_evaluator none none = Calm-placed _ _ id

  Logs-service_place_workload :
      (service : Service F) (now : Time) (id : String)
      → Logs (service_place_workload service now id)
  unfolding service_place_workload place_workload place_workload_with_decision
      place_workload_predictive place_workload_predictive_with_decision place_workload_risk_aware
      place_workload_risk_aware_with_decision
  Logs-service_place_workload service now id = by_evaluator service.evaluator service.predictions
    where
      by_evaluator :
          (e : Option Evaluator) (p : Option (PredictionProvider F)) → Logs (by_policy e p now id)
      by_evaluator (some e) p = Logs-placed _ _ id
      by_evaluator none (some get) = Logs-placed _ _ id
      by_evaluator none none = Logs-placed _ _ id

  and_then-IsLogged :
      (r : Result Error (Workload F)) (rest : Partial F (List (Workload F))) (t : Sys F)
      (x : Store F)
      → ((k : Workload F)
          → r ≡ ok k
          → (t.store.workloads ≡ insert k.id k x.workloads) × (k.state ≡ "PLACED"))
      → ((e : Error) → r ≡ err e → t ≡ alone x)
      → IsLogged t.store (rest t)
      → IsLogged x (and_then r rest t)
  and_then-IsLogged (ok k) rest t x good bad (written, all) =
      let (new, placed) = good k refl in (written ∙ ap (write_all (rest t).0.0) new, (placed, all))
  and_then-IsLogged (err e) rest t x good bad (written, all) =
      let same = ap (λ s. s.store.workloads) (bad e refl) in
      elim (Bool-cases (is_no_eligible_worker e)) [
        | inl y ↦
            subst (λ b. IsLogged x (if b then rest t else (([], some e), t))) (sym y)
              (written ∙ ap (write_all (rest t).0.0) same, all)
        | inr n ↦
            subst (λ b. IsLogged x (if b then rest t else (([], some e), t))) (sym n) (same, tt)
      ]

  place_all-IsLogged :
      (service : Service F) (now : Time) (ws : List (Workload F)) (x : Store F)
      → IsLogged x (place_all service now ws (alone x))
  unfolding place_all
  place_all-IsLogged service now [] x = (refl, tt)
  place_all-IsLogged service now (w ∷ ws) x =
      let p = service_place_workload service now w.id (alone x) in
      let calm = is_alone p.1 (Calm-service_place_workload service now w.id (alone x) refl) in
      and_then-IsLogged p.0 (place_all service now ws) p.1 x
        (Logs-service_place_workload service now w.id x)
        (Spares-service_place_workload service now w.id x)
        (subst (λ t. IsLogged p.1.store (place_all service now ws t)) (sym calm)
          (place_all-IsLogged service now ws p.1.store))

  -- When nobody else acts and the context stays live, the workloads that the store has after a pass
  -- are those that it had before, with the workloads that the pass returns written over them in
  -- their order, whether or not an error ended the pass; and each workload returned is PLACED.
  pub schedule_pending-IsLogged :
      (service : Service F) (now : Time) (x : Store F)
      → IsLogged x (schedule_pending service now (alone x))
  unfolding schedule_pending call snapshot
  schedule_pending-IsLogged service now x = place_all-IsLogged service now _ x
