-- ===== src/Base/Dict.antt =====
-- Go's `map[string]V` as an association list. The order of the list is the order of an iteration;
-- Go leaves it open, so a statement about every list is one about every order.
use Prim.Native.Nat.{ℕ, ◌+◌, ◌≤◌}
use Prim.Native.String.{String}
use mathlib.Core.Path.{◌≡◌, refl, sym, subst}
use mathlib.Core.List.{List, [], ◌∷◌, map}
use mathlib.Core.Option.{Option, none, some, some-injective}
use mathlib.Core.Logic.{inl, inr}
use native.Mathlib.Omega.{arith}
use text.Mathlib.Text.{◌==◌}
use text.Mathlib.TextEquality.{eq_iff}
use aegis_llm_control_plane.Base.Tests.{if◌then◌else◌, Bool-cases}

abbrev pub Dict {ℓ} : Type ℓ → Type ℓ
Dict V = List (String × V)

module _ {ℓ} {V : Type ℓ} where
  unfoldable pub lookup : String → Dict V → Option V
  lookup k [] = none
  lookup k ((j, v) ∷ m) = if j == k then some v else lookup k m

  unfoldable pub insert : String → V → Dict V → Dict V
  insert k v [] = (k, v) ∷ []
  insert k v ((j, w) ∷ m) = if j == k then (k, v) ∷ m else (j, w) ∷ insert k v m

  -- `delete(m, k)`; the keys of a map are distinct, so every entry under k goes
  unfoldable pub delete : String → Dict V → Dict V
  delete k [] = []
  delete k ((j, w) ∷ m) = let rest = delete k m in if j == k then rest else (j, w) ∷ rest

  abbrev pub values : Dict V → List V
  values = map (λ e. e.1)

  pub lookup-insert :
      (own id : String) (new : V) (m : Dict V)
      → lookup id (insert own new m) ≡ (if own == id then some new else lookup id m)
  unfolding lookup insert
  lookup-insert own id new [] = refl
  lookup-insert own id new ((key, old) ∷ rest) =
      ground (arith, lookup-insert own id new rest, eq_iff key own, eq_iff own id, eq_iff key id)

  -- An entry written under the ID that it carries.
  pub lookup-insert_own :
      (own id : String) (v : V) (m : Dict V) → own ≡ id → lookup id (insert own v m) ≡ some v
  lookup-insert_own own id v m same = ground (arith, lookup-insert own id v m, eq_iff own id)

  pub lookup-delete :
      (k j : String) (m : Dict V) → lookup j (delete k m) ≡ (if k == j then none else lookup j m)
  unfolding lookup delete
  lookup-delete k j [] = ground arith
  lookup-delete k j ((i, w) ∷ m) =
      ground (arith, eq_iff k j, eq_iff i k, eq_iff i j, lookup-delete k j m)

  -- The sum of a measure over a map.
  unfoldable pub total : (V → ℕ) → Dict V → ℕ
  total f [] = 0
  total f ((j, w) ∷ m) = f w + total f m

  abbrev pub measure : (V → ℕ) → Option V → ℕ
  measure f none = 0
  measure f (some v) = f v

  -- A write takes the old entry's measure out and puts the new one's in.
  pub total-insert :
      (f : V → ℕ) (k : String) (v : V) (m : Dict V)
      → total f (insert k v m) + measure f (lookup k m) ≡ total f m + f v
  unfolding total insert lookup
  total-insert f k v [] = omega arith
  total-insert f k v ((i, w) ∷ m) = ground (arith, total-insert f k v m)

  pub total-measure-le :
      (f : V → ℕ) (k : String) (v : V) (m : Dict V) → lookup k m ≡ some v → f v ≤ total f m
  unfolding total lookup
  total-measure-le f k v [] e = cc
  total-measure-le f k v ((i, w) ∷ m) e = ground (arith, total-measure-le f k v m)

  -- Every entry has the property.
  abbrev pub Holds {κ} : (String → V → Type κ) → Dict V → Type (ℓ ⊔ κ)
  Holds P m = (k : String) (v : V) → lookup k m ≡ some v → P k v

  pub Holds-insert {κ} :
      (P : String → V → Type κ) (k : String) (v : V) (m : Dict V)
      → Holds P m
      → P k v
      → Holds P (insert k v m)
  Holds-insert P k v m h p j w e = elim (Bool-cases (k == j)) [
    | inl same ↦
        subst (λ t. P t w) ((eq_iff k j).0 same)
          (subst (P k) (some-injective _ _ (rw (lookup-insert k j v m, same) at e)) p)
    | inr other ↦ h j w (rw (lookup-insert k j v m, other) at e)
  ]

  -- An entry found under an ID is found under the ID that it carries.
  pub lookup_own :
      {id own : String} (m : Dict V) (v : V)
      → own ≡ id
      → lookup id m ≡ some v
      → lookup own m ≡ some v
  lookup_own m v same found = subst (λ t. lookup t m ≡ some v) (sym same) found
