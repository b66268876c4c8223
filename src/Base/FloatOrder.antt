-- ===== src/Base/FloatOrder.antt =====
-- The order of the floating-point numbers that are not NaN, from the laws of IEEE 754.
use mathlib.Core.Path.{◌≡◌}
use mathlib.Core.Logic.{inl, inr}
use mathlib.Core.Bool.{true, false}
use native.Mathlib.Omega.{arith}
use aegis_llm_control_plane.Base.Tests.{Bool-cases}
use aegis_llm_control_plane.Base.Float.{Float64, IsIeee, IsNumber, ◌≼◌}

module _ {F : Type 0} ⦃fl : Float64 F⦄ (laws : IsIeee F) where
  open laws use {lt_iff, le_trans, le_total, refl_of_le}

  pub lt_irrefl : (x : F) → fl.lt x x ≡ false
  lt_irrefl x = ground (arith, lt_iff x x)

  pub lt_trans : (x y z : F) → fl.lt x y ≡ true → fl.lt y z ≡ true → fl.lt x z ≡ true
  lt_trans x y z h k =
      let (a, b) = (lt_iff x y).0 h in
      let (c, d) = (lt_iff y z).0 k in
      elim (Bool-cases (fl.le z x)) [
        | inl back ↦ cc (d, le_trans z x y back a)
        | inr away ↦ (lt_iff x z).1 (le_trans x y z a c, away)
      ]

  -- Of two numbers the one that is not less is at least the other.
  pub le_of_not-lt : (x y : F) → IsNumber x → IsNumber y → fl.lt x y ≡ false → y ≼ x
  le_of_not-lt x y nx ny h = ground (arith, lt_iff x y, le_total x y)

  pub not-lt_of_le : (x y : F) → y ≼ x → fl.lt x y ≡ false
  not-lt_of_le x y h = ground (arith, lt_iff x y)

  pub lt_of_lt-le : (x y z : F) → fl.lt x y ≡ true → y ≼ z → fl.lt x z ≡ true
  lt_of_lt-le x y z h k =
      ground (arith, lt_iff x y, lt_iff x z, le_trans x y z, le_trans z x y, le_trans y z x)

  pub lt_of_le-lt : (x y z : F) → x ≼ y → fl.lt y z ≡ true → fl.lt x z ≡ true
  lt_of_le-lt x y z h k = ground (arith, lt_iff y z, lt_iff x z, le_trans x y z, le_trans z x y)
