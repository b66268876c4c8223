-- ===== src/Shared.antt =====
-- One goroutine's run against the shared store. The store's lock is held for one method call, so
-- between two calls other goroutines act on the store, and the context may be cancelled. A run is
-- given its turns, one for each call that it makes: what the others do before the call, and what
-- `ctx.Err()` is at the call. Once the turns are used up nobody else acts.
use aegis_llm_control_plane.Base.{
  ◌≡◌, refl, sym, ap, subst, pure, List, [], ◌∷◌, Option, none, M, Result, ok, err, proceed, ◌>>=◌,
  All,
}
use aegis_llm_control_plane.Errors.{Error}
use aegis_llm_control_plane.Cluster.Store.{Store, Method}

pub record Turn (F : Type 0) : Type 0 where
  pub act : Store F → Store F
  pub ctx : Option Error

pub record Sys (F : Type 0) : Type 0 where
  pub store : Store F
  pub turns : List (Turn F)

abbrev pub Run : Type 0 → Type 0 → Type 0
Run F A = M (Sys F) Error A

module _ {F : Type 0} where
  abbrev quiet : Turn F
  quiet = record { act = λ s. s; ctx = none }

  abbrev pub turn : List (Turn F) → Turn F
  turn [] = quiet
  turn (t ∷ ts) = t

  abbrev pub turns_left : List (Turn F) → List (Turn F)
  turns_left [] = []
  turns_left (t ∷ ts) = ts

  -- The store as the next call finds it.
  abbrev pub seen : Sys F → Store F
  seen s = (turn s.turns).act s.store

  -- A call of a store method.
  unfoldable pub call : {A : Type 0} → (Option Error → Method F A) → Run F A
  call m s =
      let p = m (turn s.turns).ctx (seen s) in
      (p.0, record { store = p.1; turns = turns_left s.turns })

  -- The store has the property, and the others keep it.
  abbrev pub Good : (Store F → Type 0) → Sys F → Type 0
  Good P s = P s.store × All (λ t. (x : Store F) → P x → P (t.act x)) s.turns

  -- The run keeps it too, whatever its outcome.
  abbrev pub Keeps : {A : Type 0} → (Store F → Type 0) → Run F A → Type 0
  Keeps P m = (s : Sys F) → Good P s → Good P (m s).1

  Good-turns :
      (P : Store F → Type 0) (x y : Store F) (ts : List (Turn F))
      → (P ((turn ts).act x) → P y)
      → Good P (record { store = x; turns = ts })
      → Good P (record { store = y; turns = turns_left ts })
  Good-turns P x y [] f g = (f g.0, tt)
  Good-turns P x y (t ∷ ts) f g = (f (g.1.0 x g.0), g.1.1)

  pub Keeps-call :
      {A : Type 0} (P : Store F → Type 0) (m : Option Error → Method F A)
      → ((ctx : Option Error) (x : Store F) → P x → P (m ctx x).1)
      → Keeps P (call m)
  unfolding call
  Keeps-call P m keep s g = Good-turns P s.store _ s.turns (keep (turn s.turns).ctx (seen s)) g

  Keeps-proceed :
      {A B : Type 0} (P : Store F → Type 0) (r : Result Error A) (f : A → Run F B)
      → ((a : A) → Keeps P (f a))
      → Keeps P (proceed r f)
  Keeps-proceed P (ok a) f k s g = k a s g
  Keeps-proceed P (err e) f k s g = g

  pub Keeps-bind :
      {A B : Type 0} (P : Store F → Type 0) (m : Run F A) (f : A → Run F B)
      → Keeps P m
      → ((a : A) → Keeps P (f a))
      → Keeps P (m >>= f)
  Keeps-bind P m f km kf s g = Keeps-proceed P (m s).0 f kf (m s).1 (km s g)

module _ {F : Type 0} where
  -- A run with no others.
  abbrev pub alone : Store F → Sys F
  alone s = record { store = s; turns = [] }

  -- A run that only reads, when nobody else acts.
  abbrev pub Reads : {A : Type 0} → Run F A → Type 0
  Reads m = (x : Store F) → (m (alone x)).1 ≡ alone x

  -- A run that leaves the store as it was when it fails, if nobody else acts.
  abbrev pub Spares : {A : Type 0} → Run F A → Type 0
  Spares m = (x : Store F) (e : Error) → (m (alone x)).0 ≡ err e → (m (alone x)).1 ≡ alone x

  Spares-proceed :
      {A B : Type 0} (r : Result Error A) (f : A → Run F B) (s : Sys F) (x : Store F) (e : Error)
      → s ≡ alone x
      → ((a : A) → Spares (f a))
      → (proceed r f s).0 ≡ err e
      → (proceed r f s).1 ≡ alone x
  Spares-proceed (ok a) f s x e same h k =
      subst (λ t. (f a t).0 ≡ err e → (f a t).1 ≡ alone x) (sym same) (h a x e) k
  Spares-proceed (err y) f s x e same h k = same

  pub Spares-bind :
      {A B : Type 0} (m : Run F A) (f : A → Run F B)
      → Reads m
      → ((a : A) → Spares (f a))
      → Spares (m >>= f)
  Spares-bind m f reads h x e k = Spares-proceed (m (alone x)).0 f (m (alone x)).1 x e (reads x) h k

  pub Spares-last :
      {A B : Type 0} (m : Run F A) (f : A → B) → Spares m → Spares (m >>= λ a. pure (f a))
  Spares-last {A = A} m f h x e k = go (m (alone x)).0 (m (alone x)).1 (h x) k
    where
      go :
          (r : Result Error A) (s : Sys F)
          → ((y : Error) → r ≡ err y → s ≡ alone x)
          → (proceed r (λ a. pure (f a)) s).0 ≡ err e
          → (proceed r (λ a. pure (f a)) s).1 ≡ alone x
      go (ok a) s same bad = cc
      go (err y) s same bad = same y refl

  pub Spares-call :
      {A : Type 0} (m : Option Error → Method F A)
      → ((x : Store F) (e : Error) → (m none x).0 ≡ err e → (m none x).1 ≡ x)
      → Spares (call m)
  unfolding call
  Spares-call m h x e k = ap alone (h x e k)

  pub Reads-call :
      {A : Type 0} (m : Option Error → Method F A)
      → ((x : Store F) → (m none x).1 ≡ x)
      → Reads (call m)
  unfolding call
  Reads-call m h x = ap alone (h x)
