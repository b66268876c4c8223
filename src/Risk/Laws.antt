-- ===== src/Risk/Laws.antt =====
-- internal/risk/evaluator.go: the range of the placement risk, its parts, and its uncertainty.
use aegis_llm_control_plane.Base.{◌≡◌, refl, sym, subst, arith, eqb, Bool-cases, inl, inr, ◌⊎◌}
use aegis_llm_control_plane.Base.Float.{Float64, IsIeee, IsNumber, ◌≼◌}
use aegis_llm_control_plane.Base.FloatOrder.{le_of_not-lt, lt_of_lt-le, lt_of_le-lt}
use aegis_llm_control_plane.Cluster.Types.{Worker, Workload}
use aegis_llm_control_plane.Predictor.Types.{Prediction}
use aegis_llm_control_plane.Risk.{
  Inputs, Evaluator, clamp, combine_pressure, level_for_score, evaluate, projected_memory,
  projected_compute, calculate_memory_pressure, calculate_compute_pressure,
}

module _ {F : Type 0} ⦃fl : Float64 F⦄ (laws : IsIeee F) where
  open fl use {of_uint, add, mul, div, lt, le}
  open laws use {of_uint_number, of_uint_mono, le_trans, refl_of_le, le_total}

  abbrev pub InRange : F → Type 0
  InRange x = (of_uint 0 ≼ x) × (x ≼ of_uint 100)

  -- A number is clamped into the range, and one of the range is left alone.
  pub clamp-InRange : (x : F) → IsNumber x → InRange (clamp x (of_uint 0) (of_uint 100))
  unfolding clamp
  clamp-InRange x n = ground (
    arith,
    le_of_not-lt laws x (of_uint 0),
    le_of_not-lt laws (of_uint 100) x,
    of_uint_number 0,
    of_uint_number 100,
    of_uint_mono 0 100,
  )

  pub clamp_mono :
      (x y : F) → x ≼ y → clamp x (of_uint 0) (of_uint 100) ≼ clamp y (of_uint 0) (of_uint 100)
  unfolding clamp
  clamp_mono x y h =
      let (nx, ny) = refl_of_le x y h in
      ground (
        arith,
        nx,
        ny,
        le_of_not-lt laws x (of_uint 0),
        le_of_not-lt laws (of_uint 100) x,
        le_of_not-lt laws y (of_uint 0),
        le_of_not-lt laws (of_uint 100) y,
        of_uint_number 0,
        of_uint_number 100,
        of_uint_mono 0 100,
        lt_of_le-lt laws x y (of_uint 0),
        lt_of_lt-le laws (of_uint 100) x y,
      )

  -- The larger of two numbers.
  pub combine_pressure_max :
      (m c : F)
      → IsNumber m
      → IsNumber c
      → (m ≼ combine_pressure m c)
        × (c ≼ combine_pressure m c)
        × ((combine_pressure m c ≡ m) ⊎ (combine_pressure m c ≡ c))
  unfolding combine_pressure
  combine_pressure_max m c nm nc = elim (Bool-cases (lt c m)) [
    | inl t ↦ rw t (nm, ((laws.lt_iff c m).0 t).0, inl refl)
    | inr t ↦ rw t (le_of_not-lt laws c m nc nm t, nc, inr refl)
  ]

  memory-InRange :
      (k : Workload F) (w : Worker F) (f : Prediction F)
      → IsNumber (projected_memory k w f)
      → InRange (calculate_memory_pressure k w f)
  unfolding calculate_memory_pressure
  memory-InRange k w f n =
      ground (arith, clamp-InRange (projected_memory k w f), of_uint_number 100, of_uint_mono 0 100)

  compute-InRange :
      (f : Prediction F) → IsNumber (projected_compute f) → InRange (calculate_compute_pressure f)
  unfolding calculate_compute_pressure
  compute-InRange f n = clamp-InRange (projected_compute f) n

  -- The score of an evaluation is the larger of the two pressures that it reports, and all three
  -- lie between 0 and 100, if neither projection is NaN.
  pub evaluate_score :
      (e : Evaluator) (i : Inputs F)
      → IsNumber (projected_memory i.workload i.worker i.forecast)
      → IsNumber (projected_compute i.forecast)
      → let risk = evaluate e i in
        let parts = risk.breakdown in
        InRange parts.memory_pressure
        × InRange parts.compute_pressure
        × InRange risk.score
        × (parts.memory_pressure ≼ risk.score)
        × (parts.compute_pressure ≼ risk.score)
        × ((risk.score ≡ parts.memory_pressure) ⊎ (risk.score ≡ parts.compute_pressure))
        × (risk.level ≡ level_for_score risk.score)
  unfolding evaluate
  evaluate_score e i nm nc =
      let m = memory-InRange i.workload i.worker i.forecast nm in
      let c = compute-InRange i.forecast nc in
      let mp = calculate_memory_pressure i.workload i.worker i.forecast in
      let cp = calculate_compute_pressure i.forecast in
      let (above, above', which) =
        combine_pressure_max mp cp (refl_of_le _ _ m.0).1 (refl_of_le _ _ c.0).1 in
      (m, c, in_range which m c, above, above', which, refl)
    where
      in_range : {x m c : F} → (x ≡ m) ⊎ (x ≡ c) → InRange m → InRange c → InRange x
      in_range (inl e) m c = subst InRange (sym e) m
      in_range (inr e) m c = subst InRange (sym e) c

  combine_pressure_mono :
      (m c m' c' : F) → m ≼ m' → c ≼ c' → combine_pressure m c ≼ combine_pressure m' c'
  combine_pressure_mono m c m' c' hm hc =
      let (nm, nm') = refl_of_le m m' hm in
      let (nc, nc') = refl_of_le c c' hc in
      let (up, up', _) = combine_pressure_max m' c' nm' nc' in
      let (_, _, which) = combine_pressure_max m c nm nc in
      pick which (le_trans m m' _ hm up) (le_trans c c' _ hc up')
    where
      pick : {x a b y : F} → (x ≡ a) ⊎ (x ≡ b) → a ≼ y → b ≼ y → x ≼ y
      pick {y = y} (inl e) h k = subst (λ t. t ≼ y) (sym e) h
      pick {y = y} (inr e) h k = subst (λ t. t ≼ y) (sym e) k

  add_mono_right : (x y z : F) → y ≼ z → IsNumber (add x y) → IsNumber (add x z) → add x y ≼ add x z
  add_mono_right x y z h n n' =
      subst (λ t. t ≼ add x z) (laws.add_comm y x)
        (subst (λ t. add y x ≼ t) (laws.add_comm z x)
          (laws.add_mono y z x h (subst (λ t. t ≼ t) (laws.add_comm x y) n)
            (subst (λ t. t ≼ t) (laws.add_comm x z) n')))

  -- A sum grows with the error of its prediction.
  sum_mono :
      (p q e e' d : F)
      → p ≡ q
      → e ≼ e'
      → IsNumber (add (add p e) d)
      → IsNumber (add (add q e') d)
      → add (add p e) d ≼ add (add q e') d
  sum_mono p q e e' d same h n n' =
      subst (λ t. IsNumber (add (add t e') d) → add (add p e) d ≼ add (add t e') d) same
        (λ m.
          laws.add_mono (add p e) (add p e') d
            (add_mono_right p e e' h (laws.number_of_add _ _ n).0 (laws.number_of_add _ _ m).0) n m)
        n'

  memory_mono :
      (k : Workload F) (w : Worker F) (f g : Prediction F)
      → projected_memory k w f ≼ projected_memory k w g
      → calculate_memory_pressure k w f ≼ calculate_memory_pressure k w g
  unfolding calculate_memory_pressure
  memory_mono k w f g h = elim (Bool-cases (eqb w.total_memory_mb 0)) [
    | inl t ↦ rw t (of_uint_number 100)
    | inr t ↦ rw t (clamp_mono (projected_memory k w f) (projected_memory k w g) h)
  ]

  compute_mono :
      (f g : Prediction F)
      → projected_compute f ≼ projected_compute g
      → calculate_compute_pressure f ≼ calculate_compute_pressure g
  unfolding calculate_compute_pressure
  compute_mono f g h = clamp_mono (projected_compute f) (projected_compute g) h

  evaluate_mono :
      (e : Evaluator) (k : Workload F) (w : Worker F) (f g : Prediction F)
      → projected_memory k w f ≼ projected_memory k w g
      → projected_compute f ≼ projected_compute g
      → (evaluate e (record { workload = k; worker = w; forecast = f })).score
        ≼ (evaluate e (record { workload = k; worker = w; forecast = g })).score
  unfolding evaluate
  evaluate_mono e k w f g hm hc =
      combine_pressure_mono _ _ _ _ (memory_mono k w f g hm) (compute_mono f g hc)

  -- Of two forecasts that predict the same utilization, the one with the larger errors never has
  -- the lower placement risk, if no projection is NaN.
  pub evaluate_uncertainty :
      (e : Evaluator) (k : Workload F) (w : Worker F) (f g : Prediction F)
      → f.forecast.predicted_memory_utilization ≡ g.forecast.predicted_memory_utilization
      → f.forecast.predicted_compute_utilization ≡ g.forecast.predicted_compute_utilization
      → f.forecast.uncertainty.memory_error ≼ g.forecast.uncertainty.memory_error
      → f.forecast.uncertainty.compute_error ≼ g.forecast.uncertainty.compute_error
      → IsNumber (projected_memory k w f)
      → IsNumber (projected_memory k w g)
      → IsNumber (projected_compute f)
      → IsNumber (projected_compute g)
      → (evaluate e (record { workload = k; worker = w; forecast = f })).score
        ≼ (evaluate e (record { workload = k; worker = w; forecast = g })).score
  evaluate_uncertainty e k w f g pm pc em ec nf ng cf cg =
      evaluate_mono e k w f g (sum_mono _ _ _ _ _ pm em nf ng) (
        subst
          (λ t.
            IsNumber (add t g.forecast.uncertainty.compute_error)
            → projected_compute f ≼ add t g.forecast.uncertainty.compute_error)
          pc (λ n. add_mono_right _ _ _ ec cf n) cg)
