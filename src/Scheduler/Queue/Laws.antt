-- ===== src/Scheduler/Queue/Laws.antt =====
-- internal/scheduler/queue.go: both orders, as results of a stable sort.
use mathlib.Core.List.{Perm}
use mathlib.Core.List.Perm
use aegis_llm_control_plane.Base.{
  ◌≡◌, ◌⊎◌, Bool, true, false, List, [], ◌∷◌, All, All-map, arith, Bool-cases, inl, inr,
}
use aegis_llm_control_plane.Base.Int.{ℤ, pos, ◌+ℤ◌, ◌≤ℤ◌, +ℤ_parts, eq_of_parts, Time}
use aegis_llm_control_plane.Cluster.Types.{Workload}
use aegis_llm_control_plane.Scheduler.Queue.{
  insert_stable, sort_stable, goes_first, effective_priority_weight, weight_of, order_workloads,
  order_workloads_with_aging,
}

module _ {A : Type 0} (less : A → A → Bool) where
  insert_stable-perm : (a : A) (xs : List A) → Perm (insert_stable less a xs) (a ∷ xs)
  unfolding insert_stable
  insert_stable-perm a [] = Perm.refl (a ∷ [])
  insert_stable-perm a (x ∷ xs) = elim (Bool-cases (less x a)) [
    | inl t ↦ rw t (Perm.trans (Perm.cons x (insert_stable-perm a xs)) (Perm.swap a x xs))
    | inr t ↦ rw t (Perm.refl (a ∷ x ∷ xs))
  ]

  pub sort_stable-perm : (xs : List A) → Perm (sort_stable less xs) xs
  unfolding sort_stable
  sort_stable-perm [] = Perm.refl []
  sort_stable-perm (x ∷ xs) =
      Perm.trans (insert_stable-perm x (sort_stable less xs)) (Perm.cons x (sort_stable-perm xs))

  -- No member should go before one that stands ahead of it.
  abbrev pub IsOrdered : List A → Type 0
  IsOrdered [] = Unit {0}
  IsOrdered (x ∷ xs) = All (λ y. less y x ≡ false) xs × IsOrdered xs

  module _ (asym : (a b : A) → less a b ≡ true → less b a ≡ false)
      (negtrans : (a b c : A) → less a b ≡ false → less b c ≡ false → less a c ≡ false) where
    insert_stable-All :
        (P : A → Type 0) (a : A) (xs : List A) → P a → All P xs → All P (insert_stable less a xs)
    unfolding insert_stable
    insert_stable-All P a [] p h = (p, tt)
    insert_stable-All P a (x ∷ xs) p (q, h) = elim (Bool-cases (less x a)) [
      | inl t ↦ rw t (q, insert_stable-All P a xs p h)
      | inr t ↦ rw t (p, (q, h))
    ]

    insert_stable-IsOrdered :
        (a : A) (xs : List A) → IsOrdered xs → IsOrdered (insert_stable less a xs)
    unfolding insert_stable
    insert_stable-IsOrdered a [] s = (tt, tt)
    insert_stable-IsOrdered a (x ∷ xs) (h, s) = elim (Bool-cases (less x a)) [
      | inl t ↦ rw t (
        insert_stable-All (λ y. less y x ≡ false) a xs (asym x a t) h,
        insert_stable-IsOrdered a xs s,
      )
      | inr t ↦ rw t ((t, All-map _ _ (λ y q. negtrans y x a q t) xs h), (h, s))
    ]

    pub sort_stable-IsOrdered : (xs : List A) → IsOrdered (sort_stable less xs)
    unfolding sort_stable
    sort_stable-IsOrdered [] = tt
    sort_stable-IsOrdered (x ∷ xs) =
        insert_stable-IsOrdered x (sort_stable less xs) (sort_stable-IsOrdered xs)

module _ {F : Type 0} where
  goes_first_asym :
      (weight : Workload F → ℤ) (a b : Workload F)
      → goes_first weight a b ≡ true
      → goes_first weight b a ≡ false
  goes_first_asym weight a b h = ground arith

  goes_first_negtrans :
      (weight : Workload F → ℤ) (a b c : Workload F)
      → goes_first weight a b ≡ false
      → goes_first weight b c ≡ false
      → goes_first weight a c ≡ false
  goes_first_negtrans weight a b c h k = ground arith

  -- No workload stands behind one of a lower weight, or of the same weight and a later arrival.
  abbrev pub InOrder : (Workload F → ℤ) → List (Workload F) → Type 0
  InOrder weight [] = Unit {0}
  InOrder weight (x ∷ xs) =
      All
        (λ y.
          (weight y +ℤ pos 1 ≤ℤ weight x)
          ⊎ ((weight y ≡ weight x) × (x.arrival_time ≤ℤ y.arrival_time)))
        xs
      × InOrder weight xs

  not_before :
      (weight : Workload F → ℤ) (x y : Workload F)
      → goes_first weight y x ≡ false
      → (weight y +ℤ pos 1 ≤ℤ weight x)
        ⊎ ((weight y ≡ weight x) × (x.arrival_time ≤ℤ y.arrival_time))
  not_before weight x y h =
      ground (arith, +ℤ_parts (weight y) (pos 1), eq_of_parts (weight y) (weight x))

  IsOrdered-InOrder :
      (weight : Workload F → ℤ) (ws : List (Workload F))
      → IsOrdered (goes_first weight) ws
      → InOrder weight ws
  IsOrdered-InOrder weight [] h = tt
  IsOrdered-InOrder weight (x ∷ xs) (h, t) =
      (All-map _ _ (λ y e. not_before weight x y e) xs h, IsOrdered-InOrder weight xs t)

  -- The order by aged priority keeps every workload, once, and of two workloads the one ahead has
  -- the higher effective weight, or the same effective weight and no later arrival.
  pub order_workloads_with_aging-InOrder :
      (ws : List (Workload F)) (now : Time)
      → Perm (order_workloads_with_aging ws now) ws
        × InOrder (λ w. effective_priority_weight w now) (order_workloads_with_aging ws now)
  unfolding order_workloads_with_aging
  order_workloads_with_aging-InOrder ws now =
      let weight = λ (w : Workload F). effective_priority_weight w now in
      (
        sort_stable-perm (goes_first weight) ws,
        IsOrdered-InOrder weight (order_workloads_with_aging ws now) (
            sort_stable-IsOrdered (goes_first weight) (goes_first_asym weight)
              (goes_first_negtrans weight) ws),
      )

  -- The order by bare priority keeps every workload too, and is in order by that.
  pub order_workloads-InOrder :
      (ws : List (Workload F))
      → Perm (order_workloads ws) ws × InOrder weight_of (order_workloads ws)
  unfolding order_workloads
  order_workloads-InOrder ws = (
    sort_stable-perm (goes_first weight_of) ws,
    IsOrdered-InOrder weight_of (order_workloads ws) (
        sort_stable-IsOrdered (goes_first weight_of) (goes_first_asym weight_of)
          (goes_first_negtrans weight_of) ws),
  )
