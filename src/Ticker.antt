-- ===== src/Ticker.antt =====
-- The loop that the services share: internal/scheduler/service.go, internal/predictor/service.go,
-- internal/telemetry/service.go and internal/simulator/simulator.go each select between the end of
-- the context and the next tick. The events are what the selects take, in that order; a list that
-- is used up leaves the service waiting.
use aegis_llm_control_plane.Base.{List, [], ◌∷◌, Option, none, some, ok, err, Result, M}
use aegis_llm_control_plane.Errors.{Error}

pub data Event {ℓ} (A : Type ℓ) : Type ℓ where
  -- `<-ctx.Done()`, with what `ctx.Err()` then is
  done : Error → Event A
  tick : A → Event A

module _ {S : Type 0} where
  -- `if err := ...; err != nil { return err }`, and the loop again.
  abbrev pub again : Result Error (Unit {0}) → (S → Option Error × S) → S → Option Error × S
  again (ok u) rest s = rest s
  again (err e) rest s = (some e, s)

  pub again-keeps :
      (P : S → Type 0) (r : Result Error (Unit {0})) (rest : S → Option Error × S) (s : S)
      → P s
      → ((t : S) → P t → P (rest t).1)
      → P (again r rest s).1
  again-keeps P (ok u) rest s p k = k s p
  again-keeps P (err e) rest s p k = p

module _ {A : Type 0} where
  -- Each tick among the events brings something with the property.
  abbrev pub Brings : (A → Type 0) → List (Event A) → Type 0
  Brings Q [] = Unit {0}
  Brings Q (done e ∷ events) = Brings Q events
  Brings Q (tick a ∷ events) = Q a × Brings Q events

module _ {S A : Type 0} where
  unfoldable pub run_loop : (A → M S Error (Unit {0})) → List (Event A) → S → Option Error × S
  run_loop body [] s = (none, s)
  run_loop body (done e ∷ events) s = (some e, s)
  run_loop body (tick a ∷ events) s = let p = body a s in again p.0 (run_loop body events) p.1

  -- What each round keeps when its tick brings what it needs, the loop keeps, however it ends.
  pub run_loop-keeps_if :
      (P : S → Type 0) (Q : A → Type 0) (body : A → M S Error (Unit {0})) (events : List (Event A))
      → ((a : A) (s : S) → Q a → P s → P (body a s).1)
      → Brings Q events
      → (s : S) → P s
      → P (run_loop body events s).1
  unfolding run_loop
  run_loop-keeps_if P Q body [] keep q s p = p
  run_loop-keeps_if P Q body (done e ∷ events) keep q s p = p
  run_loop-keeps_if P Q body (tick a ∷ events) keep q s p =
      again-keeps P (body a s).0 (run_loop body events) (body a s).1 (keep a s q.0 p)
        (run_loop-keeps_if P Q body events keep q.1)

  -- The same for rounds that need nothing.
  pub run_loop-keeps :
      (P : S → Type 0) (body : A → M S Error (Unit {0})) (events : List (Event A))
      → ((a : A) (s : S) → P s → P (body a s).1)
      → (s : S) → P s
      → P (run_loop body events s).1
  run_loop-keeps P body events keep =
      run_loop-keeps_if P (λ a. Unit {0}) body events (λ a s q. keep a s) (brings events)
    where
      brings : (es : List (Event A)) → Brings (λ a. Unit {0}) es
      brings [] = tt
      brings (done e ∷ es) = brings es
      brings (tick a ∷ es) = (tt, brings es)
