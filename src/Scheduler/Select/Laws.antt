-- ===== src/Scheduler/Select/Laws.antt =====
-- internal/scheduler: the selection loop, for any preference.
use mathlib.Core.List.{Mem, mem-cons_self, mem-cons_of_mem}
use mathlib.Core.Logic.Iff
use mathlib.Core.Option.{some-injective}
use aegis_llm_control_plane.Base.{
  ◌≡◌, refl, sym, subst, ◌↔◌, ◌&&◌, ◌⊎◌, inl, inr, Bool, true, false, List, [], ◌∷◌, Option, none,
  some, ok, err, All, Bool-cases, arith,
}
use aegis_llm_control_plane.Errors.{Error, no_eligible_worker}
use aegis_llm_control_plane.Scheduler.Select.{consider, select_from, or_no_worker}

pub or_no_worker_error :
    {A B : Type 0} (r : Option (A × B)) (e : Error)
    → or_no_worker r ≡ err e
    → e ≡ no_eligible_worker
or_no_worker_error none e h = cc
or_no_worker_error (some (a, b)) e h = cc

module _ {A B : Type 0} (eligible : A → Bool) (value : A → B) (prefer : A × B → A × B → Bool) where
  abbrev run : Option (A × B) → List A → Option (A × B)
  run = select_from eligible value prefer

  -- What is kept is an eligible candidate with its value.
  abbrev pub IsCandidate : A × B → Type 0
  IsCandidate (a, b) = (eligible a ≡ true) × (b ≡ value a)

  abbrev Kept : Option (A × B) → Type 0
  Kept none = Unit {0}
  Kept (some c) = IsCandidate c

  consider-Kept :
      (a : A) (kept : Option (A × B)) → Kept kept → Kept (consider eligible value prefer a kept)
  consider-Kept a none k = ground arith
  consider-Kept a (some (x, b)) k = ground arith

  run-Kept : (kept : Option (A × B)) (xs : List A) → Kept kept → Kept (run kept xs)
  unfolding select_from
  run-Kept kept [] k = k
  run-Kept kept (x ∷ xs) k =
      run-Kept (consider eligible value prefer x kept) xs (consider-Kept x kept k)

  abbrev From : List A → Option (A × B) → Option (A × B) → Type 0
  From xs kept none = Unit {0}
  From xs kept (some (a, b)) = (kept ≡ some (a, b)) ⊎ Mem a xs

  consider_cases :
      (a : A) (kept : Option (A × B)) (x : A) (b : B)
      → consider eligible value prefer a kept ≡ some (x, b)
      → (kept ≡ some (x, b)) ⊎ (x ≡ a)
  consider_cases a none x b e = ground arith
  consider_cases a (some (y, c)) x b e = ground arith

  consider-From :
      (a : A) (xs : List A) (kept out : Option (A × B))
      → From xs (consider eligible value prefer a kept) out
      → From (a ∷ xs) kept out
  consider-From a xs kept none h = tt
  consider-From a xs kept (some (x, b)) (inr m) = inr (mem-cons_of_mem _ m)
  consider-From a xs kept (some (x, b)) (inl e) = elim (consider_cases a kept x b e) [
    | inl old ↦ inl old
    | inr new ↦ inr (subst (λ y. Mem y (a ∷ xs)) (sym new) mem-cons_self)
  ]

  run-From : (kept : Option (A × B)) (xs : List A) → From xs kept (run kept xs)
  unfolding select_from
  run-From none [] = tt
  run-From (some (a, b)) [] = inl refl
  run-From kept (x ∷ xs) =
      consider-From x xs kept _ (run-From (consider eligible value prefer x kept) xs)

  -- Nothing is found exactly when nothing is eligible.
  abbrev NoneEligible : List A → Type 0
  NoneEligible = All (λ a. eligible a ≡ false)

  run-some : (c : A × B) (xs : List A) → run (some c) xs ≡ none → ⊥
  unfolding select_from
  run-some c [] e = cc
  run-some c (x ∷ xs) e = elim (Bool-cases (eligible x && prefer (x, value x) c)) [
    | inl t ↦ run-some (x, value x) xs (rw t at e)
    | inr t ↦ run-some c xs (rw t at e)
  ]

  pub run-none : (xs : List A) → (run none xs ≡ none) ↔ NoneEligible xs
  unfolding select_from
  run-none [] = (λ e. tt, λ h. refl)
  run-none (x ∷ xs) = elim (Bool-cases (eligible x)) [
    | inl t ↦ (λ e. absurd (run-some (x, value x) xs (rw t at e)), λ h. cc (t, h.0))
    | inr t ↦ rw t (λ e. (refl, (run-none xs).0 e), λ h. (run-none xs).1 h.1)
  ]

  or_no_worker-none : (r : Option (A × B)) → (or_no_worker r ≡ err no_eligible_worker) ↔ (r ≡ none)
  or_no_worker-none none = (λ _. refl, λ _. refl)
  or_no_worker-none (some (a, b)) = (λ e. cc, λ e. cc)

  -- A selection fails exactly when nothing is eligible.
  pub picked_none :
      (xs : List A) → (or_no_worker (run none xs) ≡ err no_eligible_worker) ↔ NoneEligible xs
  picked_none xs = Iff.trans (or_no_worker-none (run none xs)) (run-none xs)

  -- What a selection returns comes from the list and is eligible.
  pub picked :
      (a : A) (xs : List A)
      → or_no_worker (run none xs) ≡ ok a
      → (run none xs ≡ some (a, value a)) × (eligible a ≡ true) × Mem a xs
  picked a xs e = go (run none xs) (run-Kept none xs tt) (run-From none xs) e
    where
      go :
          (r : Option (A × B))
          → Kept r
          → From xs none r
          → or_no_worker r ≡ ok a
          → (r ≡ some (a, value a)) × (eligible a ≡ true) × Mem a xs
      go none k f h = cc
      go (some (x, b)) (el, v) (inl f) h = cc
      go (some (x, b)) (el, v) (inr m) h =
          let same : x ≡ a = cc in (ground arith, rw (← same) el, subst (λ y. Mem y xs) same m)

  -- What holds of all candidates holds of the one that is selected.
  abbrev Held : (A → Type 0) → Option (A × B) → Type 0
  Held P none = Unit {0}
  Held P (some (a, b)) = P a

  run-Held :
      (P : A → Type 0) (kept : Option (A × B)) (xs : List A)
      → Held P kept
      → All P xs
      → Held P (run kept xs)
  unfolding select_from
  run-Held P kept [] k h = k
  run-Held P kept (x ∷ xs) k (p, h) =
      run-Held P (consider eligible value prefer x kept) xs (consider-Held x kept k p) h
    where
      consider-Held :
          (a : A) (o : Option (A × B))
          → Held P o
          → P a
          → Held P (consider eligible value prefer a o)
      consider-Held a none k p = elim (Bool-cases (eligible a)) [ inl t ↦ rw t p | inr t ↦ rw t tt ]
      consider-Held a (some c) k p = elim (Bool-cases (eligible a && prefer (a, value a) c)) [
        | inl t ↦ rw t p
        | inr t ↦ rw t k
      ]

  pub picked-All :
      (P : A → Type 0) (a : A) (xs : List A) → All P xs → or_no_worker (run none xs) ≡ ok a → P a
  picked-All P a xs h e =
      let (r, _, _) = picked a xs e in subst (Held P) r (run-Held P none xs tt h)

  -- No eligible candidate is preferred to this one.
  abbrev pub Unbeaten : List A → A × B → Type 0
  Unbeaten xs c = All (λ x. eligible x ≡ true → prefer (x, value x) c ≡ false) xs

  -- `prefer` is a strict order of the candidates that fit.
  pub record IsPreference (Fit : A × B → Type 0) : Type 0 where
    pub irrefl : (p : A × B) → Fit p → prefer p p ≡ false
    pub trans :
        (p q r : A × B)
        → Fit p
        → Fit q
        → Fit r
        → prefer p q ≡ true
        → prefer q r ≡ true
        → prefer p r ≡ true

  module _ (Fit : A × B → Type 0) (order : IsPreference Fit) where
    abbrev pub AllFit : List A → Type 0
    AllFit = All (λ x. eligible x ≡ true → Fit (x, value x))

    abbrev Above : A × B → A × B → Type 0
    Above c k = (c ≡ k) ⊎ (prefer c k ≡ true)

    unbeaten_by :
        (x c k : A × B)
        → Fit x
        → Fit c
        → Fit k
        → Above c k
        → prefer x k ≡ false
        → prefer x c ≡ false
    unbeaten_by x c k fx fc fk (inl e) h = rw e h
    unbeaten_by x c k fx fc fk (inr u) h = ground (arith, order.trans x c k fx fc fk)

    unbeaten_self : (x c : A × B) → Fit x → Fit c → Above c x → prefer x c ≡ false
    unbeaten_self x c fx fc (inl e) = rw e (order.irrefl x fx)
    unbeaten_self x c fx fc (inr u) = ground (arith, order.trans x c x fx fc fx, order.irrefl x fx)

    Above-trans :
        (c k' k : A × B) → Fit c → Fit k' → Fit k → Above c k' → prefer k' k ≡ true → Above c k
    Above-trans c k' k fc fk' fk (inl e) h = inr (rw e h)
    Above-trans c k' k fc fk' fk (inr u) h = inr (order.trans c k' k fc fk' fk u h)

    run_best :
        (k c : A × B) (xs : List A)
        → Fit k
        → AllFit xs
        → run (some k) xs ≡ some c
        → Fit c × Above c k × Unbeaten xs c
    unfolding select_from
    run_best k c [] fk fits e =
        let same = some-injective _ _ e in (subst Fit same fk, inl (sym same), tt)
    run_best k c (x ∷ xs) fk (fx, fits) e =
        elim (Bool-cases (eligible x && prefer (x, value x) k)) [
          | inl t ↦
              let el : eligible x ≡ true = ground arith in
              let better : prefer (x, value x) k ≡ true = ground arith in
              let (fc, up, rest) = run_best (x, value x) c xs (fx el) fits (rw t at e) in
              (
                fc,
                Above-trans c (x, value x) k fc (fx el) fk up better,
                (λ _. unbeaten_self (x, value x) c (fx el) fc up, rest),
              )
          | inr t ↦
              let (fc, up, rest) = run_best k c xs fk fits (rw t at e) in
              (fc, up, (λ el. unbeaten_by (x, value x) c k (fx el) fc fk up (ground arith), rest))
        ]

    -- Of candidates that fit, the one returned is not beaten.
    pub run-Unbeaten :
        (c : A × B) (xs : List A) → AllFit xs → run none xs ≡ some c → Fit c × Unbeaten xs c
    unfolding select_from
    run-Unbeaten c [] fits e = cc
    run-Unbeaten c (x ∷ xs) (fx, fits) e = elim (Bool-cases (eligible x)) [
      | inl t ↦
          let (fc, up, rest) = run_best (x, value x) c xs (fx t) fits (rw t at e) in
          (fc, (λ _. unbeaten_self (x, value x) c (fx t) fc up, rest))
      | inr t ↦
          let (fc, rest) = run-Unbeaten c xs fits (rw t at e) in (fc, (λ el. cc (t, el), rest))
    ]
