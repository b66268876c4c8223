-- ===== src/Predictor/Estimator/Laws.antt =====
-- internal/predictor/error_estimator.go: on which samples the estimate is given.
use aegis_llm_control_plane.Base.{ℕ, ◌<◌, ◌≡◌, refl, List, [], ◌∷◌, ok, arith, length}
use aegis_llm_control_plane.Base.Int.{pos}
use aegis_llm_control_plane.Base.Float.{Float64}
use aegis_llm_control_plane.Predictor.Types.{Uncertainty, ErrorSamples}
use aegis_llm_control_plane.Predictor.Estimator.{abs, sum_errors, mean_absolute_error, estimate}

module _ {F : Type 0} ⦃fl : Float64 F⦄ where
  sum_errors_total :
      (total : F) (actual predicted : List F)
      → length actual ≡ length predicted
      → (t : F) × (sum_errors total actual predicted ≡ ok t)
  unfolding sum_errors
  sum_errors_total total [] predicted h = (total, refl)
  sum_errors_total total (a ∷ actual) [] h = absurd (omega arith)
  sum_errors_total total (a ∷ actual) (p ∷ predicted) h =
      sum_errors_total (fl.add total (abs (fl.sub a p))) actual predicted (omega arith)

  -- Samples of four lists of one length, not zero, are given an estimate, of that many samples.
  pub estimate_total :
      (s : ErrorSamples F) (n : ℕ)
      → 0 < n
      → length s.actual_memory ≡ n
      → length s.predicted_memory ≡ n
      → length s.actual_compute ≡ n
      → length s.predicted_compute ≡ n
      → (u : Uncertainty F) × (estimate s ≡ ok u) × (u.sample_count ≡ pos n)
  unfolding estimate mean_absolute_error
  estimate_total s n h am pm ac pc =
      let (m, em) =
        sum_errors_total (fl.of_uint 0) s.actual_memory s.predicted_memory
          (omega (arith, am, pm)) in
      let (c, ec) =
        sum_errors_total (fl.of_uint 0) s.actual_compute s.predicted_compute
          (omega (arith, ac, pc)) in
      (
        record {
          memory_error = fl.div m (fl.of_uint (length s.actual_memory));
          compute_error = fl.div c (fl.of_uint (length s.actual_compute));
          sample_count = pos (length s.actual_memory);
        },
        ground arith,
        ground arith,
      )
