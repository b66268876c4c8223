-- ===== src/Base/TextOrder.antt =====
-- Go's `<` on strings as an order.
use Prim.Native.Nat.{Ordering}
use Prim.Native.String.compare
use Prim.Native.String.{String, compare}
use mathlib.Core.Path.{◌≡◌}
use mathlib.Core.Bool.{true, false}
use native.Mathlib.Omega.{arith}
use text.Mathlib.TextEquality.{path_by_compare}
use text.Mathlib.TextPositions.{compare_refl}
use aegis_llm_control_plane.Base.Tests.{text_lt}

compare_trans :
    (s t u : String)
    → compare s t ≡ Ordering.lt
    → compare t u ≡ Ordering.lt
    → compare s u ≡ Ordering.lt
compare_trans String.[] String.[] u h k = ground (arith, compare.nil-nil)
compare_trans String.[] (String.◌∷◌ d t) String.[] h k = ground (arith, compare.cons-nil d t)
compare_trans String.[] (String.◌∷◌ d t) (String.◌∷◌ e u) h k = compare.nil-cons e u
compare_trans (String.◌∷◌ c s) String.[] u h k = ground (arith, compare.cons-nil c s)
compare_trans (String.◌∷◌ c s) (String.◌∷◌ d t) String.[] h k = ground (arith, compare.cons-nil d t)
compare_trans (String.◌∷◌ c s) (String.◌∷◌ d t) (String.◌∷◌ e u) h k = ground (
  arith,
  compare.cons-cons c d s t,
  compare.cons-cons d e t u,
  compare.cons-cons c e s u,
  compare_trans s t u,
)

compare_flip : (s t : String) → compare s t ≡ Ordering.gt → compare t s ≡ Ordering.lt
compare_flip String.[] String.[] h = ground (arith, compare.nil-nil)
compare_flip String.[] (String.◌∷◌ d t) h = ground (arith, compare.nil-cons d t)
compare_flip (String.◌∷◌ c s) String.[] h = compare.nil-cons c s
compare_flip (String.◌∷◌ c s) (String.◌∷◌ d t) h =
    ground (arith, compare.cons-cons c d s t, compare.cons-cons d c t s, compare_flip s t)

pub text_lt_irrefl : (s : String) → text_lt s s ≡ false
text_lt_irrefl s = rw (text_lt, compare_refl s)

pub text_lt_trans : (s t u : String) → text_lt s t ≡ true → text_lt t u ≡ true → text_lt s u ≡ true
text_lt_trans s t u h k = ground (arith, compare_trans s t u)

pub text_lt_total : (s t : String) → text_lt s t ≡ false → text_lt t s ≡ false → s ≡ t
text_lt_total s t h k = path_by_compare s t (ground (arith, compare_flip s t))
