-- ===== src/Simulator/Lifecycle/Sound.antt =====
-- internal/simulator/lifecycle.go: a pass over the tracked workloads, when nobody else acts
-- between the calls and the context is live.
use aegis_llm_control_plane.Base.{
  ◌≡◌, inl, inr, refl, sym, ap, subst, ◌==◌, List, [], ◌∷◌, Option-cases, some, ok, err, Result,
  Bool-cases, proceed,
}
use aegis_llm_control_plane.Base.Dict.{lookup, values, lookup_own}
use aegis_llm_control_plane.Base.Int.{Time}
use aegis_llm_control_plane.Base.Float.{Float64}
use aegis_llm_control_plane.Errors.{Error, workload_not_found}
use aegis_llm_control_plane.Cluster.Types.{Workload, workload_completed}
use aegis_llm_control_plane.Cluster.Store.{Store, get_workload}
use aegis_llm_control_plane.Shared.{call, alone}
use aegis_llm_control_plane.Simulator.Lifecycle.{
  ActiveWorkload, WorkloadLifecycle, remove, completed, World, complete_unless_done,
  advance_workload, advance_all, advance_workloads,
}
use aegis_llm_control_plane.Simulator.Lifecycle.Complete.{IsKept, complete_workload-Leaves}

module _ {F : Type 0} ⦃fl : Float64 F⦄ where
  abbrev pub world : Store F → WorkloadLifecycle → World F
  world s l = record { sys = alone s; lifecycle = l }

  abbrev pub Stays : Result Error (Unit {0}) × World F → Type 0
  Stays p =
      (r : Result Error (Unit {0})) × (t : Store F) × (l : WorkloadLifecycle) × ((p
          ≡ (r, world t l))
        × IsKept t)

  proceed-Stays :
      (r : Result Error (Unit {0})) (t : Store F) (l : WorkloadLifecycle)
      (f : World F → Result Error (Unit {0}) × World F)
      → IsKept t
      → Stays (f (world t l))
      → Stays (proceed r (λ _. f) (world t l))
  proceed-Stays (ok u) t l f h k = k
  proceed-Stays (err e) t l f h k = (err e, t, l, (refl, h))

  complete_unless_done-Stays :
      (s : Store F) (l : WorkloadLifecycle) (k : Workload F)
      → IsKept s
      → lookup k.id s.workloads ≡ some k
      → Stays (complete_unless_done k (world s l))
  complete_unless_done-Stays s l k h found = elim (Bool-cases (k.state == workload_completed)) [
    | inl e ↦ rw e (ok tt, s, l, (refl, h))
    | inr e ↦
        let (r, t, (p, kept)) = complete_workload-Leaves s k h found e in
        rw (e, p) (r, t, l, (refl, kept))
  ]

  advance_workload-Stays :
      (now : Time) (a : ActiveWorkload) (s : Store F) (l : WorkloadLifecycle)
      → IsKept s
      → Stays (advance_workload now a (world s l))
  unfolding advance_workload call get_workload
  advance_workload-Stays now a s l h = elim (Bool-cases (completed a.workload_id now l)) [
    | inr e ↦ rw e (ok tt, s, l, (refl, h))
    | inl e ↦ elim (Option-cases (lookup a.workload_id s.workloads)) [
      | inl gone ↦ rw (e, gone) (err (workload_not_found a.workload_id), s, l, (refl, h))
      | inr (k, found) ↦
          let own =
            lookup_own s.workloads k (h.sound.well_formed.workloads a.workload_id k found).own_id
              found in
          let (r, t, m, (p, kept)) = complete_unless_done-Stays s l k h own in
          rw (e, found, p)
            (proceed-Stays r t m
              (λ w. (ok tt, record w { lifecycle = remove a.workload_id w.lifecycle })) kept
              (ok tt, t, remove a.workload_id m, (refl, kept)))
    ]
  ]

  advance_all-Stays :
      (now : Time) (xs : List ActiveWorkload) (s : Store F) (l : WorkloadLifecycle)
      → IsKept s
      → Stays (advance_all now xs (world s l))
  unfolding advance_all
  advance_all-Stays now [] s l h = (ok tt, s, l, (refl, h))
  advance_all-Stays now (x ∷ xs) s l h =
      let (r, t, m, (p, kept)) = advance_workload-Stays now x s l h in
      rw p (proceed-Stays r t m (advance_all now xs) kept (advance_all-Stays now xs t m kept))

  pub advance_workloads-Stays :
      (now : Time) (s : Store F) (l : WorkloadLifecycle)
      → IsKept s
      → Stays (advance_workloads now (world s l))
  unfolding advance_workloads
  advance_workloads-Stays now s l h = advance_all-Stays now (values l) s l h

  -- A pass over the tracked workloads with which nobody interferes keeps the store sound, whether
  -- it succeeds or not: each entry passes its check and stands under its own ID, and what is held
  -- of a worker and what it has available fit its memory together, so that the memory of a
  -- completed workload is given back once only. It keeps, too, that each workload with a worker
  -- holds memory or is completed.
  pub advance_workloads-IsKept :
      (now : Time) (s : Store F) (l : WorkloadLifecycle)
      → IsKept s
      → IsKept (advance_workloads now (world s l)).1.sys.store
  advance_workloads-IsKept now s l h =
      let (r, t, m, (p, kept)) = advance_workloads-Stays now s l h in
      subst IsKept (sym (ap (λ x. x.1.sys.store) p)) kept
