-- ===== src/Predictor/Trend/Samples.antt =====
-- internal/predictor/predictor.go: the last three records, and the error over the records before.
use aegis_llm_control_plane.Base.{
  ℕ, suc, ◌+◌, ◌-◌, ◌<◌, ◌≤◌, ◌≡◌, ◌⊎◌, inl, inr, refl, sym, ap, ◌∙◌, false, List, [], ◌∷◌, ok,
  arith, length, length-append, take_last, drop, ltb, Bool-cases, All, subst, ok_injective,
}
use aegis_llm_control_plane.Base.Int.{pos, le_int, time_sub}
use aegis_llm_control_plane.Base.Float.{Float64}
use aegis_llm_control_plane.Errors.{Error, insufficient_history, invalid_telemetry_interval}
use aegis_llm_control_plane.Telemetry.Types.{Record}
use aegis_llm_control_plane.Predictor.Types.{Uncertainty, ErrorSamples, Forecast}
use aegis_llm_control_plane.Predictor.Estimator.Laws.{estimate_total}
use aegis_llm_control_plane.Predictor.Trend.{
  TrendPredictor, new_trend_predictor, no_uncertainty, last_three, next_of, forecast_next,
  append_sample, no_samples, collect_samples, estimate_uncertainty,
}

module _ {F : Type 0} where
  pub last_three-take_last :
      (rs : List (Record F)) → 3 ≤ length rs → last_three (take_last 3 rs) ≡ last_three rs
  last_three-take_last [] h = absurd (omega arith)
  last_three-take_last (a ∷ []) h = absurd (omega arith)
  last_three-take_last (a ∷ b ∷ []) h = absurd (omega arith)
  last_three-take_last (a ∷ b ∷ c ∷ []) h = refl
  last_three-take_last (a ∷ b ∷ c ∷ d ∷ rest) h =
      let same : length (a ∷ b ∷ c ∷ d ∷ rest) - 3 ≡ suc (length rest) = omega arith in
      let same' : length (b ∷ c ∷ d ∷ rest) - 3 ≡ length rest = omega arith in
      rw same (
        ap (λ n. last_three (drop n (b ∷ c ∷ d ∷ rest))) (sym same')
        ∙ last_three-take_last (b ∷ c ∷ d ∷ rest) (omega arith))

  pub last_three_total :
      (rs : List (Record F))
      → 3 ≤ length rs
      → (a : Record F) × (b : Record F) × (c : Record F) × (last_three rs ≡ ok (a, b, c))
  last_three_total [] h = absurd (omega arith)
  last_three_total (a ∷ []) h = absurd (omega arith)
  last_three_total (a ∷ b ∷ []) h = absurd (omega arith)
  last_three_total (a ∷ b ∷ c ∷ []) h = (a, b, c, refl)
  last_three_total (a ∷ b ∷ c ∷ d ∷ rest) h = last_three_total (b ∷ c ∷ d ∷ rest) (omega arith)

  pub last_three-All :
      (P : Record F → Type 0) (rs : List (Record F)) (a b c : Record F)
      → All P rs
      → last_three rs ≡ ok (a, b, c)
      → P c
  last_three-All P (x ∷ y ∷ z ∷ []) a b c h e = subst P (ap (λ t. t.2) (ok_injective e)) h.1.1.0
  last_three-All P (w ∷ x ∷ y ∷ z ∷ rest) a b c h e =
      last_three-All P (x ∷ y ∷ z ∷ rest) a b c h.1 e
  last_three-All P [] a b c h e = cc
  last_three-All P (x ∷ []) a b c h e = cc
  last_three-All P (x ∷ y ∷ []) a b c h e = cc

  -- The records' times rise from one to the next, as far as a Duration tells.
  abbrev pub Rises : Record F → Record F → Record F → Type 0
  Rises a b c =
      (le_int (time_sub b.timestamp a.timestamp) (pos 0) ≡ false)
      × (le_int (time_sub c.timestamp b.timestamp) (pos 0) ≡ false)

  -- Too few records, or last ones that do not rise in time.
  abbrev pub IsFailure : List (Record F) → Error → Type 0
  IsFailure rs e =
      ((length rs < 3) × (e ≡ insufficient_history))
      ⊎ ((a : Record F) × (b : Record F) × (c : Record F) × (last_three rs ≡ ok (a, b, c))
          × ((Rises a b c → ⊥) × (e ≡ invalid_telemetry_interval)))

  abbrev AllOf : ErrorSamples F → ℕ → Type 0
  AllOf s n =
      (length s.actual_memory ≡ n)
      × (length s.predicted_memory ≡ n)
      × (length s.actual_compute ≡ n)
      × (length s.predicted_compute ≡ n)

module _ {F : Type 0} ⦃fl : Float64 F⦄ where
  append_sample-AllOf :
      (s : ErrorSamples F) (r : Record F) (f : Forecast F) (n : ℕ)
      → AllOf s n
      → AllOf (append_sample s r f) (n + 1)
  append_sample-AllOf s r f n (am, pm, ac, pc) = (
    omega (arith, length-append {0} s.actual_memory (r.memory_utilization ∷ []), am),
    omega (arith, length-append {0} s.predicted_memory (f.predicted_memory_utilization ∷ []), pm),
    omega (arith, length-append {0} s.actual_compute (r.compute_utilization ∷ []), ac),
    omega (arith, length-append {0} s.predicted_compute (f.predicted_compute_utilization ∷ []), pc),
  )

  -- The loop gives one sample for each record past the third.
  collect_samples-AllOf :
      (p : TrendPredictor F) (rs : List (Record F)) (s : ErrorSamples F) (n : ℕ)
      → AllOf s n
      → (t : ErrorSamples F) × (collect_samples p rs s ≡ ok t) × AllOf t (n + (length rs - 3))
  unfolding collect_samples forecast_next
  collect_samples-AllOf p [] s n h = (s, refl, ground arith)
  collect_samples-AllOf p (a ∷ []) s n h = (s, refl, ground arith)
  collect_samples-AllOf p (a ∷ b ∷ []) s n h = (s, refl, ground arith)
  collect_samples-AllOf p (a ∷ b ∷ c ∷ []) s n h = (s, refl, ground arith)
  collect_samples-AllOf p (a ∷ b ∷ c ∷ d ∷ rest) s n h =
      let f = next_of p a b c in
      let (t, e, g) =
        collect_samples-AllOf p (b ∷ c ∷ d ∷ rest) (append_sample s d f) (n + 1)
          (append_sample-AllOf s d f n h) in
      (t, e, omega (arith, g))

  pub estimate_uncertainty_total :
      (rs : List (Record F))
      → 3 ≤ length rs
      → (u : Uncertainty F) × (estimate_uncertainty new_trend_predictor rs ≡ ok u)
        × (u.sample_count ≡ pos (length rs - 3))
  unfolding estimate_uncertainty new_trend_predictor
  estimate_uncertainty_total rs h = elim (Bool-cases (ltb (length rs) 4)) [
    | inl few ↦ (no_uncertainty, rw few, ap pos (ground arith))
    | inr more ↦
        let (s, es, g) = collect_samples-AllOf new_trend_predictor rs no_samples 0 (omega arith) in
        let (u, eu, size) =
          estimate_total s (length rs - 3) (ground arith) (omega (arith, g)) (omega (arith, g))
            (omega (arith, g)) (omega (arith, g)) in
        (u, rw (more, es, eu), size)
  ]
