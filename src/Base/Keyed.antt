-- ===== src/Base/Keyed.antt =====
-- Tables with a unique key: lookup, `INSERT ... ON CONFLICT DO UPDATE`, and the laws of both.
use web3_real_estate.Base.Tests.{Eq, ◌==◌, if◌then◌else◌, nat_eq}
use Prim.Native.Nat.{ℕ, ◌+◌, ◌<◌}
use mathlib.Core.Path.{◌≡◌, refl}
use mathlib.Core.Option.{Option, none, some}
use mathlib.Core.List.{List, [], ◌∷◌}
use native.Mathlib.Omega.{arith}

module _ {A K : Type 0} ⦃e : Eq K⦄ (key : A → K) where
  -- `SELECT ... WHERE key = k`
  unfoldable pub find : K → List A → Option A
  find k [] = none
  find k (x ∷ xs) = if k == key x then some x else find k xs

  -- `INSERT a ON CONFLICT (key) DO UPDATE SET f`
  unfoldable pub upsert : (A → A) → A → List A → List A
  upsert f a [] = a ∷ []
  upsert f a (x ∷ xs) = if key a == key x then f x ∷ xs else x ∷ upsert f a xs

  -- No two rows have one key.
  abbrev pub IsUnique : List A → Type 0
  IsUnique [] = Unit
  IsUnique (x ∷ xs) = (find (key x) xs ≡ none) × IsUnique xs

  -- What a lookup sees after an upsert that leaves the key alone.
  pub find-upsert :
      (f : A → A) (a : A) (k : K) (xs : List A)
      → ((x : A) → key (f x) ≡ key x)
      → find k (upsert f a xs) ≡ (
          if k == key a
          then some (elim (find (key a) xs) [ none ↦ a | some x ↦ f x ])
          else find k xs)
  unfolding find upsert
  find-upsert f a k [] keeps = refl
  find-upsert f a k (x ∷ xs) keeps = ground (
    arith,
    e.same_iff k (key a),
    e.same_iff k (key x),
    e.same_iff (key a) (key x),
    keeps x,
    find-upsert f a k xs keeps,
  )

  pub upsert-IsUnique :
      (f : A → A) (a : A) (xs : List A)
      → ((x : A) → key (f x) ≡ key x)
      → IsUnique xs
      → IsUnique (upsert f a xs)
  unfolding find upsert
  upsert-IsUnique f a [] keeps h = (refl, tt)
  upsert-IsUnique f a (x ∷ xs) keeps h = ground (
    arith,
    e.same_iff (key a) (key x),
    e.same_iff (key x) (key a),
    keeps x,
    find-upsert f a (key x) xs keeps,
    upsert-IsUnique f a xs keeps,
  )

-- A second key of the table, given out in increasing order (`id SERIAL`).
module _ {A K : Type 0} ⦃e : Eq K⦄ (key : A → K) (id : A → ℕ) where
  abbrev pub IsBelow : ℕ → List A → Type 0
  IsBelow n [] = Unit
  IsBelow n (x ∷ xs) = (id x < n) × IsBelow n xs

  pub IsBelow-upsert :
      (f : A → A) (a : A) (n : ℕ) (xs : List A)
      → ((x : A) → id (f x) ≡ id x)
      → id a ≡ n
      → IsBelow n xs
      → IsBelow (n + 1) (upsert key f a xs)
  unfolding upsert
  IsBelow-upsert f a n [] keeps new h = ground arith
  IsBelow-upsert f a n (x ∷ xs) keeps new h =
      ground (arith, keeps x, IsBelow-upsert f a n xs keeps new, IsBelow_mono xs h.1)
    where
      IsBelow_mono : (l : List A) → IsBelow n l → IsBelow (n + 1) l
      IsBelow_mono [] p = tt
      IsBelow_mono (y ∷ ys) p = (omega arith, IsBelow_mono ys p.1)

  find_below : (n : ℕ) (xs : List A) → IsBelow n xs → find id n xs ≡ none
  unfolding find
  find_below n [] h = refl
  find_below n (x ∷ xs) h = ground (arith, find_below n xs)

  find_new :
      (f : A → A) (a : A) (k : ℕ) (xs : List A)
      → find key (key a) xs ≡ none
      → find id k xs ≡ none
      → k < id a
      → find id k (upsert key f a xs) ≡ none
  unfolding find upsert
  find_new f a k [] h g l = ground arith
  find_new f a k (x ∷ xs) h g l = ground (arith, find_new f a k xs)

  -- A row with a new key and the next id leaves the ids unique.
  pub upsert-IsUnique_id :
      (f : A → A) (a : A) (xs : List A)
      → find key (key a) xs ≡ none
      → IsBelow (id a) xs
      → IsUnique id xs
      → IsUnique id (upsert key f a xs)
  unfolding find upsert
  upsert-IsUnique_id f a [] h b u = (refl, tt)
  upsert-IsUnique_id f a (x ∷ xs) h b u =
      ground (arith, find_new f a (id x) xs, upsert-IsUnique_id f a xs)
