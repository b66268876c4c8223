-- ===== src/Simulator/Workers/Laws.antt =====
-- internal/simulator/simulator.go: the heartbeats of a round when nobody else acts.
use mathlib.Core.Option.{some-injective}
use aegis_llm_control_plane.Base.{
  ℕ, ◌+◌, ◌≡◌, inl, inr, refl, sym, ap, ◌∙◌, subst, true, ◌==◌, eq_iff, List, [], ◌∷◌, none, some,
  ok, All, All-map, arith, Bool-cases,
}
use aegis_llm_control_plane.Base.Dict.{lookup, insert, values, lookup-insert}
use aegis_llm_control_plane.Base.Distinct.{Distinct-insert, values-found}
use aegis_llm_control_plane.Simulator.Lifecycle.Complete.{IsKept}
use aegis_llm_control_plane.Base.Int.{ℤ, pos, Time}
use aegis_llm_control_plane.Base.Float.{Float64, IsIeee}
use aegis_llm_control_plane.Cluster.Types.{Worker}
use aegis_llm_control_plane.Cluster.Validation.{validate_worker}
use aegis_llm_control_plane.Cluster.Store.{Store, list_workers, update_worker}
use aegis_llm_control_plane.Cluster.Store.Accounting.Traces.{IsSound, Step-IsSound, reports}
use aegis_llm_control_plane.Shared.{call, alone}
use aegis_llm_control_plane.Simulator.Scenario.{Utilization, utilization}
use aegis_llm_control_plane.Simulator.Scenario.Laws.{is_known, InRange, utilization_total}
use aegis_llm_control_plane.Simulator.Workers.{Simulator, observed, update_from, update_workers}

module _ {F : Type 0} where
  written : Worker F → Store F → Store F
  written w s = record s { workers = insert w.id w s.workers }

  agrees :
      {A : Type 0} (s : Store F) (w v : Worker F) {old old' : Worker F} (field : Worker F → A)
      → (w.id == v.id) ≡ true
      → lookup w.id s.workers ≡ some old
      → lookup v.id s.workers ≡ some old'
      → field old ≡ field w
      → field old' ≡ field v
      → field w ≡ field v
  agrees s w v field same found found' here there =
      let key = (eq_iff w.id v.id).0 same in
      let one = some-injective _ _ (sym found ∙ ap (λ i. lookup i s.workers) key ∙ found') in
      sym here ∙ ap field one ∙ there

module _ {F : Type 0} ⦃fl : Float64 F⦄ where
  validate_worker-observed :
      (u : Utilization F) (now : Time) (w : Worker F)
      → InRange u
      → validate_worker w ≡ none
      → validate_worker (observed u now w) ≡ none
  unfolding validate_worker
  validate_worker-observed u now w range v = ground (arith, range.0, range.1)

  -- The store has the worker, with the memory that the listing says.
  abbrev IsListed : Store F → Worker F → Type 0
  IsListed s w =
      (validate_worker w ≡ none)
      × ((old : Worker F) × ((lookup w.id s.workers ≡ some old)
            × (old.available_memory_mb ≡ w.available_memory_mb)
            × (old.total_memory_mb ≡ w.total_memory_mb)))

  IsListed-written :
      (u : Utilization F) (now : Time) (s : Store F) (w : Worker F)
      → IsListed s w
      → (v : Worker F) → IsListed s v
      → IsListed (written (observed u now w) s) v
  unfolding written
  IsListed-written u now s w (good, (old, (found, free, size))) v
        (good', (old', (found', free', size'))) =
      elim (Bool-cases (w.id == v.id)) [
        | inl same ↦ (
          good',
          (
            observed u now w,
            (
              rw (lookup-insert w.id v.id (observed u now w) s.workers, same) refl,
              agrees s w v (λ x. x.available_memory_mb) same found found' free free',
              agrees s w v (λ x. x.total_memory_mb) same found found' size size',
            ),
          ),
        )
        | inr other ↦ (
          good',
          (
            old',
            (rw (lookup-insert w.id v.id (observed u now w) s.workers, other) found', free', size'),
          ),
        )
      ]

  update_worker_writes :
      (s : Store F) (w old : Worker F)
      → validate_worker w ≡ none
      → lookup w.id s.workers ≡ some old
      → update_worker none w s ≡ (ok tt, written w s)
  unfolding update_worker written
  update_worker_writes s w old good found = rw (good, found) refl

  update_from_step :
      (sim : Simulator) (clock : ℕ → Time) (step : ℤ) (i : ℕ) (w : Worker F) (ws : List (Worker F))
      (s t : Store F) (u : Utilization F)
      → utilization sim.scenario step (pos i) ≡ ok u
      → update_worker none (observed u (clock i) w) s ≡ (ok tt, t)
      → update_from sim clock step i (w ∷ ws) (alone s)
        ≡ update_from sim clock step (i + 1) ws (alone t)
  unfolding update_from call
  update_from_step sim clock step i w ws s t u made wrote = rw (made, wrote) refl

  written-IsKept :
      (s : Store F) (w old : Worker F)
      → validate_worker w ≡ none
      → lookup w.id s.workers ≡ some old
      → old.available_memory_mb ≡ w.available_memory_mb
      → old.total_memory_mb ≡ w.total_memory_mb
      → IsKept s
      → IsKept (written w s)
  unfolding written
  written-IsKept s w old fine found free size h = record {
    sound =
        subst IsSound (ap (λ p. p.1) (update_worker_writes s w old fine found))
          (Step-IsSound (reports none old w found (sym size) (omega (arith, free))) h.sound);
    settled = h.settled;
    once = Distinct-insert w.id w s.workers h.once;
  }

  update_from_succeeds :
      (laws : IsIeee F) (sim : Simulator) (clock : ℕ → Time) (step : ℤ) (i : ℕ)
      (ws : List (Worker F)) (s : Store F)
      → is_known sim.scenario ≡ true
      → IsKept s
      → All (IsListed s) ws
      → (t : Store F) × ((update_from sim clock step i ws (alone s) ≡ (ok tt, alone t)) × IsKept t)
  unfolding update_from call
  update_from_succeeds laws sim clock step i [] s known h listed = (s, (refl, h))
  update_from_succeeds laws sim clock step i (w ∷ ws) s known h
        ((good, (old, (found, free, size))), others) =
      elim (utilization_total laws sim.scenario step (pos i)) [
        | inr (_, unknown) ↦ absurd (cc (known, unknown))
        | inl (u, (made, range, _)) ↦
            let w' = observed u (clock i) w in
            let fine = validate_worker-observed u (clock i) w range good in
            let wrote = update_worker_writes s w' old fine found in
            let rest =
              All-map (IsListed s) (IsListed (written w' s))
                (IsListed-written u (clock i) s w (good, (old, (found, free, size)))) ws others in
            let (t, (p, done)) =
              update_from_succeeds laws sim clock step (i + 1) ws (written w' s) known
                (written-IsKept s w' old fine found free size h) rest in
            (t, (update_from_step sim clock step i w ws s (written w' s) u made wrote ∙ p, done))
      ]

  -- A round of heartbeats with a known scenario succeeds when nobody else acts on a sound store,
  -- and leaves it sound: the utilizations that it writes pass the store's checks, and the account of
  -- each worker's memory still holds.
  pub update_workers_succeeds :
      (laws : IsIeee F) (sim : Simulator) (clock : ℕ → Time) (step : ℤ) (s : Store F)
      → is_known sim.scenario ≡ true
      → IsKept s
      → (t : Store F) × ((update_workers sim clock step (alone s) ≡ (ok tt, alone t)) × IsKept t)
  unfolding update_workers list_workers call
  update_workers_succeeds laws sim clock step s known h =
      let good = h.sound.well_formed.workers in
      update_from_succeeds laws sim clock step 0 (values s.workers) s known h (
        All-map (λ w. lookup w.id s.workers ≡ some w) (IsListed s)
          (λ w found. ((good w.id w found).valid, (w, (found, refl, refl)))) (values s.workers)
          (values-found (λ w. w.id) s.workers h.once (λ id w found. (good id w found).own_id)))
