-- ===== src/Prelude/Action.antt =====
-- Statements that change a state and may raise. What was written before a raise stays written,
-- until a transaction around it rolls back.
use mathlib.Core.Path.{◌≡◌, refl}
use mathlib.Core.Logic.{◌⊎◌, inl, inr}
use mathlib.Core.Bool.{Bool, true, false}
use native.Mathlib.Omega.{arith}
use mathlib.Core.Option.{Option, none, some}

pub data Result (E A : Type 0) : Type 0 where
  ok : A → Result E A
  err : E → Result E A

abbrev pub Action : Type 0 → Type 0 → Type 0 → Type 0
Action S E A = S → Result E A × S

module _ {S E A : Type 0} where
  abbrev pub pure : A → Action S E A
  pure a s = (ok a, s)

  abbrev pub raise : E → Action S E A
  raise e s = (err e, s)

  abbrev pub gets : (S → A) → Action S E A
  gets f s = (ok (f s), s)

  abbrev pub or_raise : Option A → E → Action S E A
  or_raise none e s = (err e, s)
  or_raise (some a) e s = (ok a, s)

  -- `async with database.transaction()`: an exception that leaves the block rolls it back.
  abbrev pub transaction : Action S E A → Action S E A
  transaction m s = let (r, s') = m s in elim r [ ok a ↦ (ok a, s') | err e ↦ (err e, s) ]

module _ {S E : Type 0} where
  abbrev pub raise_if : Bool → E → Action S E Unit
  raise_if true e s = (err e, s)
  raise_if false e s = (ok tt, s)

  abbrev pub modify : (S → S) → Action S E Unit
  modify f s = (ok tt, f s)

module _ {S E A B : Type 0} where
  infixl 5 ◌>>=◌ ◌>>◌
  abbrev pub ◌>>=◌ : Action S E A → (A → Action S E B) → Action S E B
  ◌>>=◌ m f s = let (r, s') = m s in elim r [ ok a ↦ f a s' | err e ↦ (err e, s') ]

  abbrev pub ◌>>◌ : Action S E A → Action S E B → Action S E B
  m >> k = m >>= λ _. k

pub Result-cases :
    {E A : Type 0} (r : Result E A) → ((a : A) × (r ≡ ok a)) ⊎ ((e : E) × (r ≡ err e))
Result-cases (ok a) = inl (a, refl)
Result-cases (err e) = inr (e, refl)

-- How a call ended, with its final state.
pub Action-cases :
    {S E A : Type 0} (m : Result E A × S)
    → ((a : A) × (m ≡ (ok a, m.1))) ⊎ ((e : E) × (m ≡ (err e, m.1)))
Action-cases (ok a, s) = inl (a, refl)
Action-cases (err e, s) = inr (e, refl)

-- A transaction that raises has changed nothing.
pub transaction-fails :
    {S E A : Type 0} (m : Action S E A) (s : S) (e : E)
    → (transaction m s).0 ≡ err e
    → (transaction m s).1 ≡ s
transaction-fails m s e h = elim (Action-cases (m s)) [
  | inl (a, e₁) ↦ ground (arith, e₁, h)
  | inr (x, e₁) ↦ ground (arith, e₁)
]
