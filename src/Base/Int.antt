-- ===== src/Base/Int.antt =====
-- Signed integers over the native numbers, Go's 64-bit arithmetic, and `time.Time`.
use Prim.Native.Nat.{ℕ, suc, ◌+◌, ◌-◌, ◌*◌, ◌%◌, ◌^◌, ◌≤◌}
use mathlib.Core.Path.{◌≡◌, refl}
use mathlib.Core.Logic.{◌⊎◌, inl, inr}
use mathlib.Core.Bool.{Bool}
use native.Mathlib.Omega.{arith}
use aegis_llm_control_plane.Base.Tests.{ltb, leb, eqb, if◌then◌else◌}

-- `negsuc n` is -(n + 1).
pub data ℤ : Type 0 where
  pos : ℕ → ℤ
  negsuc : ℕ → ℤ

abbrev pub pos_part : ℤ → ℕ
pos_part (pos n) = n
pos_part (negsuc n) = 0

abbrev pub neg_part : ℤ → ℕ
neg_part (pos n) = 0
neg_part (negsuc n) = suc n

-- a - b, as an integer.
abbrev pub sub_ℕ : ℕ → ℕ → ℤ
sub_ℕ a b = if leb b a then pos (a - b) else negsuc (b - a - 1)

infixl 65 ◌+ℤ◌ ◌-ℤ◌
infixl 70 ◌*ℤ◌
infix 50 ◌≤ℤ◌
unfoldable pub ◌+ℤ◌ : ℤ → ℤ → ℤ
a +ℤ b = sub_ℕ (pos_part a + pos_part b) (neg_part a + neg_part b)

unfoldable pub ◌-ℤ◌ : ℤ → ℤ → ℤ
a -ℤ b = sub_ℕ (pos_part a + neg_part b) (neg_part a + pos_part b)

unfoldable pub ◌*ℤ◌ : ℤ → ℤ → ℤ
a *ℤ b =
    sub_ℕ (pos_part a * pos_part b + neg_part a * neg_part b)
      (pos_part a * neg_part b + neg_part a * pos_part b)

abbrev pub ◌≤ℤ◌ : ℤ → ℤ → Type 0
a ≤ℤ b = pos_part a + neg_part b ≤ pos_part b + neg_part a

abbrev pub lt_int : ℤ → ℤ → Bool
lt_int a b = ltb (pos_part a + neg_part b) (pos_part b + neg_part a)

abbrev pub le_int : ℤ → ℤ → Bool
le_int a b = leb (pos_part a + neg_part b) (pos_part b + neg_part a)

abbrev pub eq_int : ℤ → ℤ → Bool
eq_int a b = eqb (pos_part a + neg_part b) (pos_part b + neg_part a)

pub +ℤ_parts :
    (a b : ℤ)
    → pos_part (a +ℤ b) + neg_part a + neg_part b ≡ neg_part (a +ℤ b) + pos_part a + pos_part b
unfolding ◌+ℤ◌
+ℤ_parts a b = ground arith

pub -ℤ_parts :
    (a b : ℤ)
    → pos_part (a -ℤ b) + neg_part a + pos_part b ≡ neg_part (a -ℤ b) + pos_part a + neg_part b
unfolding ◌-ℤ◌
-ℤ_parts a b = ground arith

pub eq_of_parts : (a b : ℤ) → pos_part a + neg_part b ≡ pos_part b + neg_part a → a ≡ b
eq_of_parts a b h = ground arith

pub ruleset int_laws = (arith, +ℤ_parts, -ℤ_parts)

-- The value of the low 64 bits as a signed number: what Go's `int` and `int64` keep of a result.
abbrev low_bits : ℤ → ℕ
low_bits (pos n) = n % 2 ^ 64
low_bits (negsuc n) = 2 ^ 64 - 1 - n % 2 ^ 64

unfoldable pub wrap_int : ℤ → ℤ
wrap_int z =
    let bits = low_bits z in if ltb bits (2 ^ 63) then pos bits else negsuc (2 ^ 64 - 1 - bits)

-- A count in the range of an int, and one more, and one less again.
pub wrap_int_suc :
    (n : ℤ) → pos 0 ≤ℤ n → n ≤ℤ pos (2 ^ 62) → pos_part (wrap_int (n +ℤ pos 1)) ≡ pos_part n + 1
unfolding wrap_int ◌+ℤ◌
wrap_int_suc (pos n) low high = ground arith
wrap_int_suc (negsuc n) low high = omega arith

pub wrap_int_back :
    (n : ℤ) → pos 0 ≤ℤ n → n ≤ℤ pos (2 ^ 62) → wrap_int (wrap_int (n +ℤ pos 1) -ℤ pos 1) ≡ n
unfolding wrap_int ◌+ℤ◌ ◌-ℤ◌
wrap_int_back (pos n) low high = ground arith
wrap_int_back (negsuc n) low high = absurd (omega arith)

-- Go's `uint64`.
abbrev pub wrap_uint : ℕ → ℕ
wrap_uint n = n % 2 ^ 64

abbrev pub add_uint : ℕ → ℕ → ℕ
add_uint a b = (a + b) % 2 ^ 64

abbrev pub sub_uint : ℕ → ℕ → ℕ
sub_uint a b = (a + 2 ^ 64 - b) % 2 ^ 64

-- A `time.Time` is the nanoseconds since the zero Time, and a `time.Duration` is nanoseconds too.
abbrev pub Time : Type 0
Time = ℤ

abbrev pub Duration : Type 0
Duration = ℤ

abbrev pub is_zero_time : Time → Bool
is_zero_time t = eq_int t (pos 0)

abbrev pub seconds : ℕ → Duration
seconds n = pos (n * 1_000_000_000)

abbrev pub max_duration : ℤ
max_duration = pos 9_223_372_036_854_775_807

abbrev pub min_duration : ℤ
min_duration = negsuc 9_223_372_036_854_775_807

-- `t.Sub(u)`: a difference out of the range of a Duration is the nearest Duration.
unfoldable pub time_sub : Time → Time → Duration
time_sub t u =
    let d = t -ℤ u in
    if lt_int max_duration d
    then max_duration
    else if lt_int d min_duration
    then min_duration
    else d

pub time_sub_mono : (s t u : Time) → s ≤ℤ t → time_sub s u ≤ℤ time_sub t u
unfolding time_sub
time_sub_mono s t u h = ground (arith, -ℤ_parts s u, -ℤ_parts t u)

-- `t.Add(d)`
abbrev pub time_add : Time → Duration → Time
time_add t d = t +ℤ d

-- `t.After(u)` and `t.Before(u)`
abbrev pub after : Time → Time → Bool
after t u = lt_int u t

abbrev pub before : Time → Time → Bool
before t u = lt_int t u

pub one_part : (z : ℤ) → (pos_part z ≡ 0) ⊎ (neg_part z ≡ 0)
one_part (pos n) = inr refl
one_part (negsuc n) = inl refl
