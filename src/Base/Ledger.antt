-- ===== src/Base/Ledger.antt =====
-- Mappings of keys to amounts (`mapping(... => uint256)`): reading, writing, and the total of the
-- entries whose keys pass a test.
use web3_real_estate.Base.Tests.{Eq, ◌==◌, if◌then◌else◌}
use Prim.Native.Nat.{ℕ, ◌+◌, ◌≤◌}
use mathlib.Core.Path.{◌≡◌, refl}
use mathlib.Core.Bool.{Bool, true}
use mathlib.Core.List.{List, [], ◌∷◌}
use native.Mathlib.Omega.{arith}

abbrev pub Ledger : Type 0 → Type 0
Ledger K = List (K × ℕ)

module _ {K : Type 0} ⦃e : Eq K⦄ where
  -- Zero where nothing was written.
  unfoldable pub amount_of : K → Ledger K → ℕ
  amount_of k [] = 0
  amount_of k ((j, n) ∷ rest) = if k == j then n else amount_of k rest

  unfoldable pub put : K → ℕ → Ledger K → Ledger K
  put k v [] = (k, v) ∷ []
  put k v ((j, n) ∷ rest) = if k == j then (j, v) ∷ rest else (j, n) ∷ put k v rest

  unfoldable pub total : (K → Bool) → Ledger K → ℕ
  total p [] = 0
  total p ((j, n) ∷ rest) = (if p j then n else 0) + total p rest

  pub amount_of-put :
      (k j : K) (v : ℕ) (l : Ledger K)
      → amount_of k (put j v l) ≡ (if k == j then v else amount_of k l)
  unfolding amount_of put
  amount_of-put k j v [] = refl
  amount_of-put k j v ((i, n) ∷ rest) =
      ground (arith, e.same_iff k j, e.same_iff k i, e.same_iff j i, amount_of-put k j v rest)

  -- A write moves every total by what it moves its own entry.
  pub total-put :
      (p : K → Bool) (k : K) (v : ℕ) (l : Ledger K)
      → total p (put k v l) + (if p k then amount_of k l else 0)
        ≡ total p l + (if p k then v else 0)
  unfolding amount_of put total
  total-put p k v [] = ground arith
  total-put p k v ((j, n) ∷ rest) = ground (arith, e.same_iff k j, total-put p k v rest)

  -- An entry is a part of each total that counts it.
  pub amount_of-le : (p : K → Bool) (k : K) (l : Ledger K) → p k ≡ true → amount_of k l ≤ total p l
  amount_of-le p k l h = ground (arith, h, total-put p k 0 l)
