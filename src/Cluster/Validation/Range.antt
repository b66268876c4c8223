-- ===== src/Cluster/Validation/Range.antt =====
-- internal/cluster/validation.go: the range of a utilization, and values clamped into it.
use aegis_llm_control_plane.Base.{◌≡◌, false, arith, if◌then◌else◌}
use aegis_llm_control_plane.Base.Float.{Float64, IsIeee}
use aegis_llm_control_plane.Base.FloatOrder.{lt_irrefl}
use aegis_llm_control_plane.Cluster.Validation.{out_of_range}

module _ {F : Type 0} ⦃fl : Float64 F⦄ (laws : IsIeee F) where
  open fl use {of_uint, lt}

  -- A clamped value passes the test of a utilization, also if it is NaN.
  pub clamped_in_range :
      (x : F)
      → out_of_range
          (if lt x (of_uint 0) then of_uint 0 else if lt (of_uint 100) x then of_uint 100 else x)
        ≡ false
  clamped_in_range x = ground (
    arith,
    lt_irrefl laws (of_uint 0),
    lt_irrefl laws (of_uint 100),
    laws.lt_iff (of_uint 100) (of_uint 0),
    laws.of_uint_mono 0 100,
  )
