-- ===== src/Simulator/Lifecycle/Laws.antt =====
-- internal/simulator/lifecycle.go: what is still tracked after a pass that succeeds.
use mathlib.Core.Option.{some-injective}
use aegis_llm_control_plane.Base.{
  ◌≡◌, inl, inr, refl, sym, ap, ◌∙◌, String, Bool, true, false, ◌&&◌, ◌||◌, ◌==◌, eq_iff, List, [],
  ◌∷◌, Option, Option-cases, none, some, ok, arith, Bool-cases, bind_ok, ◌>>◌, if◌then◌else◌,
}
use aegis_llm_control_plane.Base.Dict.{lookup, values, lookup-delete, Holds}
use aegis_llm_control_plane.Base.Int.{Time}
use aegis_llm_control_plane.Base.Float.{Float64}
use aegis_llm_control_plane.Cluster.Types.{Workload, workload_completed}
use aegis_llm_control_plane.Cluster.Store.{get_workload}
use aegis_llm_control_plane.Shared.{call}
use aegis_llm_control_plane.Simulator.Lifecycle.{
  ActiveWorkload, WorkloadLifecycle, active_workload, completed, remove, World, on_store,
  on_lifecycle, complete_unless_done, advance_workload, advance_all, advance_workloads,
}

abbrev listed : String → List ActiveWorkload → Bool
listed id [] = false
listed id (a ∷ rest) = a.workload_id == id || listed id rest

-- Each entry stands under the workload that it names.
abbrev pub IsOwn : WorkloadLifecycle → Type 0
IsOwn l = Holds (λ id a. a.workload_id ≡ id) l

completed-remove :
    (id j : String) (now : Time) (l : WorkloadLifecycle)
    → completed j now (remove id l) ≡ (if id == j then false else completed j now l)
unfolding completed active_workload remove
completed-remove id j now l =
    rw (lookup-delete id j l)
      (elim (Bool-cases (id == j)) [ inl e ↦ rw e refl | inr e ↦ rw e refl ])

-- What is tracked under an ID after the rounds for a list.
abbrev left : String → Time → List ActiveWorkload → WorkloadLifecycle → Option ActiveWorkload
left id now xs l = if listed id xs && completed id now l then none else lookup id l

left-cons :
    (id : String) (now : Time) (x : ActiveWorkload) (xs : List ActiveWorkload)
    (l : WorkloadLifecycle)
    → left id now xs (if completed x.workload_id now l then remove x.workload_id l else l)
      ≡ left id now (x ∷ xs) l
unfolding remove
left-cons id now x xs l = elim (Bool-cases (x.workload_id == id)) [
  | inl same ↦
      let i = (eq_iff x.workload_id id).0 same in
      elim (Bool-cases (completed x.workload_id now l)) [
        | inl over ↦
            ground
              (arith, lookup-delete x.workload_id id l, completed-remove x.workload_id id now l, i)
        | inr not_over ↦ ground (arith, i)
      ]
  | inr other ↦ elim (Bool-cases (completed x.workload_id now l)) [
    | inl over ↦
        ground (arith, lookup-delete x.workload_id id l, completed-remove x.workload_id id now l)
    | inr not_over ↦ ground arith
  ]
]

listed-values :
    (l : WorkloadLifecycle) (id : String) (a : ActiveWorkload)
    → a.workload_id ≡ id
    → lookup id l ≡ some a
    → listed id (values l) ≡ true
unfolding lookup
listed-values [] id a own e = cc
listed-values ((j, b) ∷ l) id a own e = elim (Bool-cases (j == id)) [
  | inl same ↦
      let b_is_a : b ≡ a = some-injective _ _ (rw same at e) in
      let named : (b.workload_id == id) ≡ true =
        (eq_iff b.workload_id id).1 (ap (λ x. x.workload_id) b_is_a ∙ own) in
      rw named refl
  | inr other ↦ ground (arith, listed-values l id a own (rw other at e))
]

completed-listed :
    (l : WorkloadLifecycle) (id : String) (now : Time)
    → IsOwn l
    → completed id now l ≡ true
    → listed id (values l) ≡ true
unfolding completed active_workload
completed-listed l id now own h = elim (Option-cases (lookup id l)) [
  | inl e ↦ absurd (cc (rw e at h))
  | inr (a, e) ↦ listed-values l id a (own id a e) e
]

module _ {F : Type 0} ⦃fl : Float64 F⦄ where
  complete_lifecycle :
      (k : Workload F) (w : World F) → (complete_unless_done k w).1.lifecycle ≡ w.lifecycle
  complete_lifecycle k w = elim (Bool-cases (k.state == workload_completed)) [
    | inl e ↦ rw e refl
    | inr e ↦ rw e refl
  ]

  advance_workload_lem :
      (now : Time) (a : ActiveWorkload) (w : World F)
      → (advance_workload now a w).0 ≡ ok tt
      → (advance_workload now a w).1.lifecycle ≡ (
          if completed a.workload_id now w.lifecycle
          then remove a.workload_id w.lifecycle
          else w.lifecycle)
  unfolding advance_workload
  advance_workload_lem now a w h = elim (Bool-cases (completed a.workload_id now w.lifecycle)) [
    | inr e ↦ rw e refl
    | inl e ↦
        let fetch = on_store (call (λ ctx. get_workload ctx a.workload_id)) in
        let ends = on_lifecycle (remove a.workload_id) in
        let (k, _, p) = bind_ok fetch (λ k. complete_unless_done k >> ends) w tt (rw e at h) in
        let (_, _, q) =
          bind_ok (complete_unless_done k) (λ _. ends) (fetch w).1 tt
            (sym (ap (λ x. x.0) p) ∙ (rw e at h)) in
        rw e (
          ap (λ x. x.1.lifecycle) (p ∙ q)
          ∙ ap (remove a.workload_id) (complete_lifecycle k (fetch w).1))
  ]

  advance_all_lem :
      (now : Time) (xs : List ActiveWorkload) (w : World F) (id : String)
      → (advance_all now xs w).0 ≡ ok tt
      → lookup id (advance_all now xs w).1.lifecycle ≡ left id now xs w.lifecycle
  unfolding advance_all
  advance_all_lem now [] w id h = refl
  advance_all_lem now (x ∷ xs) w id h =
      let (_, first, p) = bind_ok (advance_workload now x) (λ _. advance_all now xs) w tt h in
      let w' = (advance_workload now x w).1 in
      ap (λ r. lookup id r.1.lifecycle) p
      ∙ advance_all_lem now xs w' id (sym (ap (λ r. r.0) p) ∙ h)
      ∙ ap (left id now xs) (advance_workload_lem now x w first)
      ∙ left-cons id now x xs w.lifecycle

  -- After a pass that succeeds, whatever others did to the store meanwhile, exactly the workloads
  -- whose time is over are no longer tracked: those and only those that started no later than their
  -- expected duration before now. The entries are tracked under the workloads that they name.
  pub advance_workloads_ok :
      (now : Time) (w : World F) (id : String)
      → IsOwn w.lifecycle
      → (advance_workloads now w).0 ≡ ok tt
      → lookup id (advance_workloads now w).1.lifecycle
        ≡ (if completed id now w.lifecycle then none else lookup id w.lifecycle)
  unfolding advance_workloads
  advance_workloads_ok now w id own h = elim (Bool-cases (completed id now w.lifecycle)) [
    | inl over ↦
        let among = completed-listed w.lifecycle id now own over in
        advance_all_lem now (values w.lifecycle) w id h ∙ (rw (over, among) refl)
    | inr not_over ↦
        advance_all_lem now (values w.lifecycle) w id h
        ∙ (elim (Bool-cases (listed id (values w.lifecycle))) [
          | inl t ↦ rw (not_over, t) refl
          | inr t ↦ rw (not_over, t) refl
        ])
  ]
