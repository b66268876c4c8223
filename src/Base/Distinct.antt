-- ===== src/Base/Distinct.antt =====
-- A Go map has a key once: the entries of an association list under distinct keys.
use mathlib.Core.Option.{some-injective}
use aegis_llm_control_plane.Base.{
  ◌≡◌, inl, inr, refl, sym, ap, subst, ◌∙◌, String, false, ◌==◌, eq_iff, eq_refl, [], ◌∷◌, none,
  some, All, All-map, arith, Bool-cases, if◌then◌else◌,
}
use aegis_llm_control_plane.Base.Dict.{Dict, lookup, insert, values, lookup-insert, Holds}

module _ {V : Type 0} where
  -- No key is in the rest of the list.
  abbrev pub Distinct : Dict V → Type 0
  Distinct [] = Unit
  Distinct ((k, v) ∷ m) = (lookup k m ≡ none) × Distinct m

  pub Distinct-insert : (k : String) (v : V) (m : Dict V) → Distinct m → Distinct (insert k v m)
  unfolding insert lookup
  Distinct-insert k v [] d = (refl, tt)
  Distinct-insert k v ((j, w) ∷ m) (new, d) = elim (Bool-cases (j == k)) [
    | inl same ↦ let i = (eq_iff j k).0 same in rw same (ap (λ x. lookup x m) (sym i) ∙ new, d)
    | inr other ↦ rw other (other_key k j v m other ∙ new, Distinct-insert k v m d)
  ]
    where
      other_key :
          (a b : String) (x : V) (n : Dict V)
          → (b == a) ≡ false
          → lookup b (insert a x n) ≡ lookup b n
      other_key a b x n e = ground (arith, lookup-insert a b x n, eq_iff b a, eq_iff a b)

  -- Every entry is found under its key.
  pub values-found :
      (key : V → String) (m : Dict V)
      → Distinct m
      → Holds (λ k v. key v ≡ k) m
      → All (λ v. lookup (key v) m ≡ some v) (values m)
  unfolding lookup
  values-found key [] d own = tt
  values-found key ((k, v) ∷ m) (new, d) own =
      let mine : key v ≡ k = own k v (rw (eq_refl k) refl) in
      (
        rw (mine, eq_refl k) refl,
        All-map (λ w. lookup (key w) m ≡ some w)
            (λ w. (if k == key w then some v else lookup (key w) m) ≡ some w)
            (λ w e. elsewhere (key w) w e) (values m)
            (values-found key m d λ j w e. own j w (elsewhere j w e)),
      )
    where
      elsewhere :
          (j : String) (w : V)
          → lookup j m ≡ some w
          → (if k == j then some v else lookup j m) ≡ some w
      elsewhere j w e = elim (Bool-cases (k == j)) [
        | inl same ↦ absurd (cc (e, new, (eq_iff k j).0 same))
        | inr other ↦ rw other e
      ]

  pub Holds-tail {κ} :
      (P : String → V → Type κ) (k : String) (v : V) (m : Dict V)
      → lookup k m ≡ none
      → Holds P ((k, v) ∷ m)
      → Holds P m
  unfolding lookup
  Holds-tail P k v m new h j w e = elim (Bool-cases (k == j)) [
    | inl same ↦ absurd (cc (e, new, (eq_iff k j).0 same))
    | inr other ↦ h j w (rw other e)
  ]

  -- What holds of all values holds of one that is found.
  pub All-lookup {κ} :
      (P : V → Type κ) (m : Dict V) (k : String) (v : V)
      → All P (values m)
      → lookup k m ≡ some v
      → P v
  unfolding lookup
  All-lookup P [] k v h e = absurd (cc e)
  All-lookup P ((j, w) ∷ m) k v (p, h) e = elim (Bool-cases (j == k)) [
    | inl same ↦ subst P (some-injective _ _ (rw same at e)) p
    | inr other ↦ All-lookup P m k v h (rw other at e)
  ]
