-- ===== src/Base/Fallible.antt =====
-- Go's `(value, error)` results, and code that reads and writes a state and may fail.
use mathlib.Core.Path.{◌≡◌, refl}
use mathlib.Core.Logic.{◌⊎◌, inl, inr}
use mathlib.Core.Bool.{Bool, true, false}
use mathlib.Core.Option.{Option, none, some}

pub data Result {ℓ κ} (E : Type ℓ) (A : Type κ) : Type (ℓ ⊔ κ) where
  ok : A → Result E A
  err : E → Result E A

-- `if err != nil { return err }` between two calls.
abbrev pub bind {ℓ κ ν} :
    {E : Type ℓ} {A : Type κ} {B : Type ν} → Result E A → (A → Result E B) → Result E B
bind (ok a) f = f a
bind (err e) f = err e

-- A method on a state S: its result and the state that it leaves, also when it fails.
abbrev pub M : Type 0 → Type 0 → Type 0 → Type 0
M S E A = S → Result E A × S

module _ {S E : Type 0} where
  abbrev pub proceed : {A B : Type 0} → Result E A → (A → M S E B) → M S E B
  proceed (ok a) f s = f a s
  proceed (err e) f s = (err e, s)

  infixl 5 ◌>>=◌ ◌>>◌
  abbrev pub ◌>>=◌ : {A B : Type 0} → M S E A → (A → M S E B) → M S E B
  ◌>>=◌ m f s = proceed (m s).0 f (m s).1

  abbrev pub ◌>>◌ : {B : Type 0} → M S E (Unit {0}) → M S E B → M S E B
  ◌>>◌ m k = m >>= λ _. k

  abbrev pub pure : {A : Type 0} → A → M S E A
  pure a s = (ok a, s)

  abbrev pub fail : {A : Type 0} → E → M S E A
  fail e s = (err e, s)

  abbrev pub lift : {A : Type 0} → Result E A → M S E A
  lift r s = (r, s)

  -- `if !b { return e }`
  abbrev pub guard : Bool → E → M S E (Unit {0})
  guard true e = pure tt
  guard false e = fail e

  -- `if err := ctx.Err(); err != nil { return err }`
  abbrev pub check : Option E → M S E (Unit {0})
  check none = pure tt
  check (some e) = fail e

  abbrev pub or_fail : {A : Type 0} → Option A → E → M S E A
  or_fail none e = fail e
  or_fail (some a) e = pure a

pub Result-cases {ℓ κ} :
    {E : Type ℓ} {A : Type κ} (r : Result E A) → ((a : A) × (r ≡ ok a)) ⊎ ((e : E) × (r ≡ err e))
Result-cases (ok a) = inl (a, refl)
Result-cases (err e) = inr (e, refl)

module _ {S E A B : Type 0} where
  proceed_ok :
      (r : Result E A) (f : A → M S E B) (s : S) (b : B)
      → (proceed r f s).0 ≡ ok b
      → (a : A) × (r ≡ ok a) × (proceed r f s ≡ f a s)
  proceed_ok (ok a) f s b h = (a, refl, refl)
  proceed_ok (err e) f s b h = cc

  -- A sequence that succeeds: its first part did, and its second gives the result.
  pub bind_ok :
      (m : M S E A) (f : A → M S E B) (s : S) (b : B)
      → ((m >>= f) s).0 ≡ ok b
      → (a : A) × ((m s).0 ≡ ok a) × ((m >>= f) s ≡ f a (m s).1)
  bind_ok m f s b h = proceed_ok (m s).0 f (m s).1 b h

pub ok_injective {ℓ κ} :
    {E : Type ℓ} {A : Type κ} {a b : A} → ◌≡◌ {A = Result E A} (ok a) (ok b) → a ≡ b
ok_injective e = cc
