-- ===== src/Base/Outcome.antt =====
-- Results of calls that may raise, and actions on a state that is given up when they raise.
use mathlib.Core.Path.{◌≡◌, refl}
use mathlib.Core.Logic.{◌⊎◌, inl, inr}
use mathlib.Core.Option.{Option, none, some}

pub data Result {ℓ} (E A : Type ℓ) : Type ℓ where
  ok : A → Result E A
  err : E → Result E A

pub Result-cases {ℓ} :
    {E A : Type ℓ} (r : Result E A) → ((a : A) × (r ≡ ok a)) ⊎ ((e : E) × (r ≡ err e))
Result-cases (ok a) = inl (a, refl)
Result-cases (err e) = inr (e, refl)

-- A call inside a database transaction: an exception leaves no state, since the caller rolls back.
abbrev pub Action {ℓ} : Type ℓ → Type ℓ → Type ℓ → Type ℓ
Action E S A = S → Result E (A × S)

module _ {ℓ} {E S A : Type ℓ} where
  abbrev pub pure : A → Action E S A
  pure a s = ok (a, s)

  abbrev pub raise : E → Action E S A
  raise e s = err e

infixl 5 ◌>>=◌ ◌>>◌
abbrev pub ◌>>=◌ {ℓ} : {E S A B : Type ℓ} → Action E S A → (A → Action E S B) → Action E S B
◌>>=◌ m f s = elim (m s) [ ok (a, s') ↦ f a s' | err e ↦ err e ]

abbrev pub ◌>>◌ {ℓ} : {E S A B : Type ℓ} → Action E S A → Action E S B → Action E S B
m >> k = m >>= λ _. k

module _ {E S : Type 0} where
  abbrev pub modify : (S → S) → Action E S (Unit {0})
  modify f s = ok (tt, f s)

module _ {E S A : Type 0} where
  -- a call that cannot raise
  abbrev pub run : (S → A × S) → Action E S A
  run f s = ok (f s)

  -- a value that an exception may stand in for
  abbrev pub or_raise : Option A → E → Action E S A
  or_raise none e s = err e
  or_raise (some a) e s = ok (a, s)
