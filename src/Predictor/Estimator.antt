-- ===== src/Predictor/Estimator.antt =====
-- internal/predictor/error_estimator.go: the mean absolute error of past predictions.
pub mod Laws
use aegis_llm_control_plane.Base.{
  String, Bool, not, ◌&&◌, ◌||◌, List, [], ◌∷◌, ok, err, bind, eqb, ltb, if◌then◌else◌, length,
}
use aegis_llm_control_plane.Base.Int.{pos}
use aegis_llm_control_plane.Base.Float.{Float64}
use aegis_llm_control_plane.Errors.{Outcome, invalid_error_samples, index_out_of_range}
use aegis_llm_control_plane.Predictor.Types.{Uncertainty, ErrorSamples}

abbrev pub valid_sample_pair : {F : Type 0} → List F → List F → Bool
valid_sample_pair actual predicted = ltb 0 (length actual) && eqb (length actual) (length predicted)

module _ {F : Type 0} ⦃fl : Float64 F⦄ where
  open fl use {of_uint, add, sub, div, neg, lt}

  -- `abs` of predictor.go
  unfoldable pub abs : F → F
  abs value = if lt value (of_uint 0) then neg value else value

  -- The loop over the indices of `actual`; `predicted[i]` panics past the end of `predicted`.
  unfoldable pub sum_errors : F → List F → List F → Outcome F
  sum_errors total [] predicted = ok total
  sum_errors total (a ∷ actual) [] = err index_out_of_range
  sum_errors total (a ∷ actual) (p ∷ predicted) =
      sum_errors (add total (abs (sub a p))) actual predicted

  unfoldable pub mean_absolute_error : List F → List F → Outcome F
  mean_absolute_error actual predicted =
      bind (sum_errors (of_uint 0) actual predicted)
        λ total. ok (div total (of_uint (length actual)))

  unfoldable pub estimate : ErrorSamples F → Outcome (Uncertainty F)
  estimate samples =
      if not (valid_sample_pair samples.actual_memory samples.predicted_memory)
        || (not (valid_sample_pair samples.actual_compute samples.predicted_compute)
            || not (eqb (length samples.actual_memory) (length samples.actual_compute)))
      then err invalid_error_samples
      else (bind (mean_absolute_error samples.actual_memory samples.predicted_memory) λ memory.
          bind (mean_absolute_error samples.actual_compute samples.predicted_compute) λ compute.
            ok (record {
              memory_error = memory;
              compute_error = compute;
              sample_count = pos (length samples.actual_memory);
            }))
