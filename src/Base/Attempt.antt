-- ===== src/Base/Attempt.antt =====
-- Calls that commit as they go: what was written stays when a later step raises.
use web3_real_estate.Base.Outcome.{Result, ok, err}

abbrev pub Attempt {ℓ} : Type ℓ → Type ℓ → Type ℓ → Type ℓ
Attempt E S A = S → Result E A × S

module _ {ℓ} {E S A : Type ℓ} where
  abbrev pub pure : A → Attempt E S A
  pure a s = (ok a, s)

  abbrev pub raise : E → Attempt E S A
  raise e s = (err e, s)

infixl 5 ◌>>=◌ ◌>>◌
abbrev pub ◌>>=◌ {ℓ} : {E S A B : Type ℓ} → Attempt E S A → (A → Attempt E S B) → Attempt E S B
◌>>=◌ m f s = elim (m s).0 [ ok a ↦ f a (m s).1 | err e ↦ (err e, (m s).1) ]

abbrev pub ◌>>◌ {ℓ} : {E S A B : Type ℓ} → Attempt E S A → Attempt E S B → Attempt E S B
m >> k = m >>= λ _. k
