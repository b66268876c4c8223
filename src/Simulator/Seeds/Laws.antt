-- ===== src/Simulator/Seeds/Laws.antt =====
-- internal/simulator/simulator.go: the entries of a seeded store.
use aegis_llm_control_plane.Base.{
  ℕ, zero, suc, ◌+◌, ◌<◌, ◌≡◌, refl, List, [], ◌∷◌, ◌>>◌, arith, ◌/◌, ◌≤◌, ltb, Bool-cases, inl,
  inr,
}
use aegis_llm_control_plane.Base.Int.{ℤ, pos_part, Time}
use aegis_llm_control_plane.Base.Float.{Float64}
use aegis_llm_control_plane.Cluster.Types.{Workload, workload_running}
use aegis_llm_control_plane.Cluster.Store.{
  register_worker, create_workload, commit_placement, update_workload,
}
use aegis_llm_control_plane.Cluster.Store.Valid.{
  IsWellFormed, commit_placement-IsWellFormed, register_worker-IsWellFormed,
  create_workload-IsWellFormed, update_workload-IsWellFormed,
}
use aegis_llm_control_plane.Shared.{call, Keeps, Keeps-bind, Keeps-call}
use aegis_llm_control_plane.Simulator.Seeds.{
  digits, seed_worker, seed_from, seed_workers, workload_1, workload_2, workload_3, place_from,
  worker_name, seed_workloads,
}

-- Any fuel beyond the number gives its digits.
digits_enough : (f g n : ℕ) → n < f → n < g → digits f n ≡ digits g n
unfolding digits
digits_enough zero g n a b = absurd (omega arith)
digits_enough (suc f) zero n a b = absurd (omega arith)
digits_enough (suc f) (suc g) n a b = elim (Bool-cases (ltb n 10)) [
  | inl small ↦ rw small refl
  | inr large ↦
      let ten : 10 ≤ n = ground arith in
      rw (large, digits_enough f g (n / 10) (omega arith) (omega arith)) refl
]

module _ {F : Type 0} ⦃fl : Float64 F⦄ where
  Keeps-seed_from :
      (clock : ℕ → Time) (i left : ℕ) → Keeps {F = F} IsWellFormed (seed_from clock i left)
  unfolding seed_from seed_worker
  Keeps-seed_from clock i zero = λ s g. g
  Keeps-seed_from clock i (suc left) =
      Keeps-bind IsWellFormed (call (λ ctx. register_worker ctx (seed_worker (clock i) i))) _
        (Keeps-call IsWellFormed _
          (λ ctx x p. register_worker-IsWellFormed x ctx (seed_worker (clock i) i) (omega arith) p))
        λ _. Keeps-seed_from clock (i + 1) left

  Keeps-place_from : (i : ℕ) (ws : List (Workload F)) → Keeps IsWellFormed (place_from i ws)
  unfolding place_from
  Keeps-place_from i [] = λ s g. g
  Keeps-place_from i (w ∷ ws) =
      Keeps-bind IsWellFormed (call (λ ctx. create_workload ctx w)) _
        (Keeps-call IsWellFormed _ (λ ctx x p. create_workload-IsWellFormed x ctx w p))
        λ _.
          Keeps-bind IsWellFormed (call (λ ctx. commit_placement ctx w.id (worker_name i))) _
            (Keeps-call IsWellFormed _
              (λ ctx x p. commit_placement-IsWellFormed x ctx w.id (worker_name i) p))
            λ placed.
              let running = record placed { state = workload_running } in
              Keeps-bind IsWellFormed (call (λ ctx. update_workload ctx running)) _
                (Keeps-call IsWellFormed _
                  (λ ctx x p. update_workload-IsWellFormed x ctx running p))
                λ _. Keeps-place_from (i + 1) ws

  -- Seeding any number of workers and then the three workloads keeps a store well formed when the
  -- others do, whether it succeeds or not: each entry passes its check and stands under its own ID.
  pub seed-IsWellFormed :
      (clock : ℕ → Time) (count : ℤ)
      → Keeps {F = F} IsWellFormed (seed_workers clock count >> seed_workloads clock)
  unfolding seed_workers seed_workloads
  seed-IsWellFormed clock count =
      Keeps-bind IsWellFormed (seed_from clock 0 (pos_part count)) _
        (Keeps-seed_from clock 0 (pos_part count))
        λ _.
          Keeps-place_from 0
            (workload_1 (clock 0) ∷ workload_2 (clock 1) ∷ workload_3 (clock 2) ∷ [])
