-- ===== src/Simulator/Lifecycle/Complete.antt =====
-- internal/simulator/lifecycle.go: the end of one workload, when nobody else acts between the calls
-- and the context is live.
use aegis_llm_control_plane.Base.{
  ◌+◌, ◌≤◌, ◌<◌, ◌^◌, ◌≡◌, ◌⊎◌, inl, inr, refl, ap, ◌∙◌, String, true, false, ◌==◌, eq_iff, eq_refl,
  Option-cases, none, some, ok, err, Result, arith,
}
use aegis_llm_control_plane.Base.Dict.{lookup, insert, Holds, Holds-insert, lookup_own}
use aegis_llm_control_plane.Base.Distinct.{Distinct, Distinct-insert}
use aegis_llm_control_plane.Base.Float.{Float64}
use aegis_llm_control_plane.Errors.{Error, worker_not_found}
use aegis_llm_control_plane.Cluster.Types.{Worker, Workload, workload_completed}
use aegis_llm_control_plane.Cluster.Validation.{
  holds_memory, validate_worker, validate_workload, validate_lifecycle,
}
use aegis_llm_control_plane.Cluster.Store.{Store, get_worker, update_worker, update_workload}
use aegis_llm_control_plane.Cluster.Store.Valid.{
  IsGoodWorker, IsGoodWorkload, IsWellFormed, available-le-total, validate_demand_congr,
}
use aegis_llm_control_plane.Cluster.Store.Accounting.{
  held, IsAccounted, trade-IsAccounted, held-holding, held-le-reserved,
}
use aegis_llm_control_plane.Cluster.Store.Accounting.Traces.{IsSound}
use aegis_llm_control_plane.Shared.{Sys, call, alone}
use aegis_llm_control_plane.Simulator.Lifecycle.{vacate, finish, complete_workload}

module _ {F : Type 0} ⦃fl : Float64 F⦄ where
  validate_workload-finish :
      (k : Workload F) → validate_workload k ≡ none → validate_workload (finish k) ≡ none
  unfolding validate_workload validate_lifecycle
  validate_workload-finish k v =
      ground (arith, validate_demand_congr k k.assigned_worker_id "COMPLETED")

  abbrev ended : Workload F → Worker F → Store F → Store F
  ended k u s = record {
    workers = insert u.id (vacate k u) s.workers;
    workloads = insert k.id (finish k) s.workloads;
  }

  -- Both writes or none.
  abbrev Ends : Workload F → Store F → Result Error (Unit {0}) × Sys F → Type 0
  Ends k s p =
      ((u : Worker F) × ((lookup k.assigned_worker_id s.workers ≡ some u)
          × (validate_worker (vacate k u) ≡ none)
          × (p ≡ (ok tt, alone (ended k u s)))))
      ⊎ ((e : Error) × (p ≡ (err e, alone s)))

  vacate_id : (k : Workload F) (u : Worker F) → (vacate k u).id ≡ u.id
  unfolding vacate
  vacate_id k u = refl

  complete_workload-Ends :
      (s : Store F) (k : Workload F)
      → IsWellFormed s
      → lookup k.id s.workloads ≡ some k
      → Ends k s (complete_workload k (alone s))
  unfolding complete_workload call get_worker update_worker update_workload
  complete_workload-Ends s k good found =
      elim (Option-cases (lookup k.assigned_worker_id s.workers)) [
        | inl e ↦ inr (worker_not_found k.assigned_worker_id, rw e refl)
        | inr (u, e) ↦ elim (Option-cases (validate_worker (vacate k u))) [
          | inr (x, bad) ↦ inr (x, rw (e, bad) refl)
          | inl fine ↦
              let own = (good.workers k.assigned_worker_id u e).own_id in
              let here : lookup (vacate k u).id s.workers ≡ some u =
                ap (λ i. lookup i s.workers) (vacate_id k u ∙ own) ∙ e in
              let valid = validate_workload-finish k (good.workloads k.id k found).valid in
              inl (u, (e, fine, rw (e, fine, here, valid, found, vacate_id k u) refl))
        ]
      ]

  -- A workload with a worker holds memory or is completed.
  abbrev pub IsSettled : Store F → Type 0
  IsSettled s =
      Holds
        (λ id k.
          (k.assigned_worker_id ≡ "")
          ⊎ ((holds_memory k.state ≡ true) ⊎ ((k.state == workload_completed) ≡ true)))
        s.workloads

  pub record IsKept (s : Store F) : Type 0 where
    pub sound : IsSound s
    pub settled : IsSettled s
    -- a Go map has a key once
    pub once : Distinct s.workers

  vacate_total : (k : Workload F) (u : Worker F) → (vacate k u).total_memory_mb ≡ u.total_memory_mb
  unfolding vacate
  vacate_total k u = refl

  vacate_available :
      (k : Workload F) (u : Worker F)
      → u.available_memory_mb ≤ u.total_memory_mb
      → u.total_memory_mb < 2 ^ 64
      → k.required_memory_mb + u.available_memory_mb ≤ u.total_memory_mb
      → (vacate k u).available_memory_mb ≡ u.available_memory_mb + k.required_memory_mb
  unfolding vacate
  vacate_available k u a b h = ground arith

  held-finish : (id : String) (k : Workload F) → held id (finish k) ≡ 0
  unfolding held
  held-finish id k = refl

  ended-IsAccounted :
      (s : Store F) (k : Workload F) (u : Worker F)
      → IsSound s
      → lookup k.id s.workloads ≡ some k
      → holds_memory k.state ≡ true
      → lookup k.assigned_worker_id s.workers ≡ some u
      → IsAccounted (ended k u s)
  ended-IsAccounted s k u h found holding e =
      let good = h.well_formed.workers k.assigned_worker_id u e in
      let bound = available-le-total u good.valid in
      let there : lookup u.id s.workers ≡ some u = lookup_own s.workers u good.own_id e in
      let mine = held-holding k holding u.id in
      let same : (k.assigned_worker_id == u.id) ≡ true =
        rw good.own_id (eq_refl k.assigned_worker_id) in
      let fits = held-le-reserved u.id k s.workloads found in
      let back = vacate_available k u bound good.fits in
      trade-IsAccounted s k (finish k) u (vacate k u) found there (vacate_total k u)
        (λ id other. omega (arith, held-finish id k))
        (ground (arith, held-finish u.id k, mine, same, fits, back, h.accounted u.id u there))
        h.accounted

  ended-IsKept :
      (s : Store F) (k : Workload F) (u : Worker F)
      → IsKept s
      → lookup k.id s.workloads ≡ some k
      → holds_memory k.state ≡ true
      → lookup k.assigned_worker_id s.workers ≡ some u
      → validate_worker (vacate k u) ≡ none
      → IsKept (ended k u s)
  ended-IsKept s k u h found holding e fine =
      let v = h.sound.well_formed in
      let good = v.workers k.assigned_worker_id u e in
      record {
        sound = record {
          well_formed = record {
            workers = Holds-insert IsGoodWorker u.id (vacate k u) s.workers v.workers (record {
              own_id = vacate_id k u;
              valid = fine;
              fits = omega (arith, vacate_total k u, good.fits);
            });
            workloads =
                Holds-insert IsGoodWorkload k.id (finish k) s.workloads v.workloads (record {
                  own_id = refl;
                  valid = validate_workload-finish k (v.workloads k.id k found).valid;
                });
          };
          accounted = ended-IsAccounted s k u h.sound found holding e;
        };
        settled =
            Holds-insert
              (λ id x.
                (x.assigned_worker_id ≡ "")
                ⊎ ((holds_memory x.state ≡ true) ⊎ ((x.state == workload_completed) ≡ true)))
              k.id (finish k) s.workloads h.settled (inr (inr refl));
        once = Distinct-insert u.id (vacate k u) s.workers h.once;
      }

  nameless_worker : (s : Store F) (u : Worker F) → IsWellFormed s → lookup "" s.workers ≡ some u → ⊥
  unfolding validate_worker
  nameless_worker s u v e =
      let good = v.workers "" u e in ground (arith, good.own_id, good.valid, eq_iff u.id "")

  -- A run that leaves a kept store and no turn of others.
  abbrev pub Leaves : {A : Type 0} → A × Sys F → Type 0
  Leaves {A = A} p = (r : A) × (t : Store F) × ((p ≡ (r, alone t)) × IsKept t)

  pub complete_workload-Leaves :
      (s : Store F) (k : Workload F)
      → IsKept s
      → lookup k.id s.workloads ≡ some k
      → (k.state == workload_completed) ≡ false
      → Leaves (complete_workload k (alone s))
  complete_workload-Leaves s k h found running =
      elim (complete_workload-Ends s k h.sound.well_formed found) [
        | inr (e, p) ↦ (err e, s, (p, h))
        | inl (u, (e, fine, p)) ↦ elim (h.settled k.id k found) [
          | inl nobody ↦ absurd (nameless_worker s u h.sound.well_formed (rw nobody at e))
          | inr (inl holding) ↦ (ok tt, ended k u s, (p, ended-IsKept s k u h found holding e fine))
          | inr (inr finished) ↦ absurd (cc (finished, running))
        ]
      ]
