-- ===== src/Indexer/Payouts/Bounds.antt =====
-- How much of a rent its shares give out.
use web3_real_estate.Base.{
  ℕ, suc, ◌+◌, ◌*◌, ◌/◌, ◌≤◌, ◌<◌, ◌≡◌, refl, List, [], ◌∷◌, arith, Bool-cases, Option-cases, inl,
  inr, eqb, truthy, false, Option, none, some,
}
use native.Mathlib.Nat.{div-add-mod, mod-lt}
use web3_real_estate.Indexer.Rows.{Address, Store}
use web3_real_estate.Indexer.Chain.{Chain}
use web3_real_estate.Indexer.Payouts.{
  Holder, Share, share, shares, total_minted, db_shares, or_else, chain_shares, with_chain_balance,
  holders, token_of, build_rent_distribution_preview_from_db,
}

abbrev pub payout_sum : List Share → ℕ
payout_sum [] = 0
payout_sum (x ∷ xs) = x.payout_wei + payout_sum xs

abbrev pub count : List Holder → ℕ
count [] = 0
count (h ∷ hs) = suc (count hs)

cancel : (n a b : ℕ) → 0 < n → n * a ≤ n * b → a ≤ b
cancel n a b h k = grind arith

div_bounds : (a n : ℕ) → 0 < n → (n * (a / n) ≤ a) × (a ≤ n * (a / n) + n)
div_bounds a n h = omega (arith, div-add-mod a n, mod-lt a h)

zero_share : (rent total b : ℕ) → 0 < total → b ≡ 0 → (rent * b) / total ≡ 0
zero_share rent total b h e = let none : rent * b ≡ 0 = rw e (omega arith) in rw none (omega arith)

-- An entry that is left out pays nothing.
payout_sum-shares :
    (rent total : ℕ) (x : Holder) (xs : List Holder)
    → 0 < total
    → payout_sum (shares rent total (x ∷ xs))
      ≡ (rent * x.token_amount) / total + payout_sum (shares rent total xs)
unfolding shares share
payout_sum-shares rent total x xs h = elim (Bool-cases (eqb x.token_amount 0)) [
  | inl e ↦ rw e (omega (arith, zero_share rent total x.token_amount h (ground arith)))
  | inr e ↦ elim (Bool-cases (eqb ((rent * x.token_amount) / total) 0)) [
    | inl e' ↦
        let none : (rent * x.token_amount) / total ≡ 0 = ground arith in rw (e, e') (omega arith)
    | inr e' ↦ rw (e, e') refl
  ]
]

shares_bounds :
    (rent total : ℕ) (hs : List Holder)
    → 0 < total
    → (total * payout_sum (shares rent total hs) ≤ rent * total_minted hs)
      × (rent * total_minted hs ≤ total * (payout_sum (shares rent total hs) + count hs))
unfolding total_minted
shares_bounds rent total [] h = unfold shares in (omega arith)
shares_bounds rent total (x ∷ xs) h =
    let (low, high) = div_bounds (rent * x.token_amount) total h in
    let (ih_low, ih_high) = shares_bounds rent total xs h in
    rw (payout_sum-shares rent total x xs h) (omega arith)

-- By the balances of the database, the shares of a rent pay out no more than the rent, and keep
-- back at most one wei for each holder.
pub db_shares_bounds :
    (rent : ℕ) (hs : List Holder)
    → 0 < total_minted hs
    → (payout_sum (db_shares rent hs) ≤ rent) × (rent ≤ payout_sum (db_shares rent hs) + count hs)
unfolding db_shares
db_shares_bounds rent hs h =
    let some_minted : eqb (total_minted hs) 0 ≡ false = ground arith in
    let (low, high) = shares_bounds rent (total_minted hs) hs h in
    rw some_minted (cancel _ _ _ h (omega arith), cancel _ _ _ h (omega arith))

or_else_le :
    (n : ℕ) (xs ys : List Share)
    → payout_sum xs ≤ n
    → payout_sum ys ≤ n
    → payout_sum (or_else xs ys) ≤ n
unfolding or_else
or_else_le n [] ys h k = k
or_else_le n (x ∷ xs) ys h k = h

shares_le :
    (rent total : ℕ) (hs : List Holder)
    → 0 < total
    → total_minted hs ≤ total
    → payout_sum (shares rent total hs) ≤ rent
shares_le rent total hs h k =
    let (low, _) = shares_bounds rent total hs h in
    let capped : rent * total_minted hs ≤ total * rent = grind arith in
    cancel total _ _ h (omega arith)

-- The supply of a token covers the balances of the listed holders.
abbrev pub IsBacked : Chain → List Holder → Type 0
IsBacked c hs =
    (token n : ℕ) → c.total_supply token ≡ some n → total_minted (with_chain_balance c token hs) ≤ n

chain_shares_le :
    (c : Chain) (rent : ℕ) (token : Option Address) (hs : List Holder)
    → IsBacked c hs
    → payout_sum (chain_shares c rent token hs) ≤ rent
unfolding chain_shares
chain_shares_le c rent none hs backed = omega arith
chain_shares_le c rent (some token) hs backed = elim (Option-cases (c.total_supply token)) [
  | inl e ↦ rw (e, chain_shares) (omega arith)
  | inr (n, e) ↦ elim (Bool-cases (truthy n)) [
    | inl pos ↦ rw (e, chain_shares) (rw pos (shares_le rent n _ (ground arith) (backed token n e)))
    | inr zero_supply ↦ rw (e, chain_shares) (rw zero_supply (omega arith))
  ]
]

db_shares_le : (rent : ℕ) (hs : List Holder) → payout_sum (db_shares rent hs) ≤ rent
db_shares_le rent hs = elim (Bool-cases (eqb (total_minted hs) 0)) [
  | inl e ↦ unfold db_shares in rw e (omega arith)
  | inr e ↦ (db_shares_bounds rent hs (ground arith)).0
]

-- If no token has a supply below the balances of the property's holders, the preview pays out no
-- more than the rent, whether it goes by the balances of the chain or by those of the database.
pub preview_le_rent :
    (c : Chain) (property_id rent : ℕ) (s : Store)
    → IsBacked c (holders property_id s.users s.ownerships)
    → payout_sum (build_rent_distribution_preview_from_db c property_id rent s) ≤ rent
unfolding build_rent_distribution_preview_from_db
preview_le_rent c property_id rent s backed =
    let hs = holders property_id s.users s.ownerships in
    or_else_le rent _ _ (chain_shares_le c rent (token_of property_id s.properties) hs backed)
      (db_shares_le rent hs)
