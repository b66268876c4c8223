-- ===== src/Base/Float.antt =====
-- `float64`: the operations that the program uses, as an interface, with the laws of IEEE 754 that
-- the theorems use. NaN is the value that is not `<=` itself.
use Prim.Native.Nat.{ℕ, suc, ◌≤◌, ◌/◌}
use mathlib.Core.Path.{◌≡◌, refl, ap}
use mathlib.Core.Logic.{◌⊎◌, ◌↔◌}
use mathlib.Core.Bool.{Bool, true, false}
use mathlib.Core.Option.{Option, none, some}
use native.Mathlib.Omega.{arith}
use aegis_llm_control_plane.Base.Tests.{if◌then◌else◌}
use aegis_llm_control_plane.Base.Int.{
  ℤ, pos, negsuc, ◌+ℤ◌, ◌-ℤ◌, ◌*ℤ◌, lt_int, le_int, eq_int, +ℤ_parts, eq_of_parts,
}

pub record Float64 (F : Type 0) : Type 0 where
  -- `float64(n)` of a uint64, and a constant that is a whole number
  pub of_uint : ℕ → F
  -- `float64(n)` of an int
  pub of_int : ℤ → F
  pub add : F → F → F
  pub sub : F → F → F
  pub mul : F → F → F
  pub div : F → F → F
  pub neg : F → F
  pub lt : F → F → Bool
  pub le : F → F → Bool
  pub eq : F → F → Bool

infix 4 ◌≼◌
abbrev pub ◌≼◌ : {F : Type 0} → ⦃fl : Float64 F⦄ → F → F → Type 0
◌≼◌ ⦃fl⦄ x y = fl.le x y ≡ true

-- Not NaN.
abbrev pub IsNumber : {F : Type 0} → ⦃fl : Float64 F⦄ → F → Type 0
IsNumber x = x ≼ x

-- What IEEE 754 says of comparisons, of conversions and of rounding (it is monotone).
pub record IsIeee (F : Type 0) ⦃fl : Float64 F⦄ : Type 0 where
  pub of_uint_number : (n : ℕ) → IsNumber (fl.of_uint n)
  pub of_uint_mono : (m n : ℕ) → m ≤ n → fl.of_uint m ≼ fl.of_uint n
  pub refl_of_le : (x y : F) → x ≼ y → IsNumber x × IsNumber y
  pub le_trans : (x y z : F) → x ≼ y → y ≼ z → x ≼ z
  pub le_total : (x y : F) → IsNumber x → IsNumber y → (x ≼ y) ⊎ (y ≼ x)
  pub lt_iff : (x y : F) → (fl.lt x y ≡ true) ↔ ((x ≼ y) × (fl.le y x ≡ false))
  pub eq_iff : (x y : F) → (fl.eq x y ≡ true) ↔ ((x ≼ y) × (y ≼ x))
  pub add_comm : (x y : F) → fl.add x y ≡ fl.add y x
  pub number_of_add : (x y : F) → IsNumber (fl.add x y) → IsNumber x × IsNumber y
  pub add_mono :
      (x y z : F) → x ≼ y → IsNumber (fl.add x z) → IsNumber (fl.add y z) → fl.add x z ≼ fl.add y z

-- The laws can be met: whole numbers, with `none` for NaN.
abbrev pub Whole : Type 0
Whole = Option ℤ

abbrev pub on_whole : (ℤ → ℤ → ℤ) → Whole → Whole → Whole
on_whole f (some a) (some b) = some (f a b)
on_whole f _ _ = none

abbrev pub test_whole : (ℤ → ℤ → Bool) → Whole → Whole → Bool
test_whole f (some a) (some b) = f a b
test_whole f _ _ = false

abbrev pub quotient : ℤ → ℤ → ℤ
quotient (pos a) (pos b) = pos (a / b)
quotient (pos a) (negsuc b) = pos 0 -ℤ pos (a / suc b)
quotient (negsuc a) (pos b) = pos 0 -ℤ pos (suc a / b)
quotient (negsuc a) (negsuc b) = pos (suc a / suc b)

abbrev pub div_whole : Whole → Whole → Whole
div_whole (some a) (some b) = if eq_int b (pos 0) then none else some (quotient a b)
div_whole _ _ = none

instance abbrev pub whole_float : Float64 Whole
whole_float = record {
  of_uint = λ n. some (pos n);
  of_int = λ z. some z;
  add = on_whole ◌+ℤ◌;
  sub = on_whole ◌-ℤ◌;
  mul = on_whole ◌*ℤ◌;
  div = div_whole;
  neg = on_whole ◌-ℤ◌ (some (pos 0));
  lt = test_whole lt_int;
  le = test_whole le_int;
  eq = test_whole eq_int;
}

add_mono_whole :
    (x y z : Whole)
    → x ≼ y
    → IsNumber (on_whole ◌+ℤ◌ x z)
    → IsNumber (on_whole ◌+ℤ◌ y z)
    → on_whole ◌+ℤ◌ x z ≼ on_whole ◌+ℤ◌ y z
add_mono_whole (some a) (some b) (some c) h m n = ground (arith, +ℤ_parts a c, +ℤ_parts b c)
add_mono_whole _ _ _ h m n = cc

add_comm_whole : (x y : Whole) → on_whole ◌+ℤ◌ x y ≡ on_whole ◌+ℤ◌ y x
add_comm_whole (some a) (some b) =
    ap some (eq_of_parts (a +ℤ b) (b +ℤ a) (omega (arith, +ℤ_parts a b, +ℤ_parts b a)))
add_comm_whole (some a) none = refl
add_comm_whole none (some b) = refl
add_comm_whole none none = refl

IsNumber-of_add_whole : (x y : Whole) → IsNumber (on_whole ◌+ℤ◌ x y) → IsNumber x × IsNumber y
IsNumber-of_add_whole (some a) (some b) h = ground arith
IsNumber-of_add_whole (some a) none h = cc
IsNumber-of_add_whole none y h = cc

pub Whole-IsIeee : IsIeee Whole
Whole-IsIeee = record {
  of_uint_number = λ n. ground arith;
  of_uint_mono = λ m n h. ground arith;
  refl_of_le = ground arith;
  le_trans = ground arith;
  le_total = ground arith;
  lt_iff = ground arith;
  eq_iff = ground arith;
  add_comm = add_comm_whole;
  number_of_add = IsNumber-of_add_whole;
  add_mono = add_mono_whole;
}
