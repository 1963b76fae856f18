-- ===== src/Yield/Investors.antt =====
-- The holders of a property and the list of the contract: `sync_investors_to_contract` of
-- backend/api/_helpers.py.
use web3_real_estate.Base.{
  ℕ, ◌&&◌, eqb, truthy, if◌then◌else◌, Option, none, some, get_or, List, [], ◌∷◌, nat_eq, pair_eq,
}
use web3_real_estate.Indexer.Rows.{Address, OwnershipRow, WalletRow}
use web3_real_estate.Indexer.Chain.{Chain}
use web3_real_estate.Indexer.Payouts.{wallet_of, erc20_balance, token_of}
use web3_real_estate.Yield.{
  Rpc, World, is_active, get_rent_property_info, get_rent_investors, add_investors_to_rent,
}
use web3_real_estate.Yield.Backfill.{mem, backfill_missed_rent_accruals}

-- The join of `token_ownerships` and `users`
unfoldable pub holding_wallets : ℕ → List WalletRow → List OwnershipRow → List Address
holding_wallets p users [] = []
holding_wallets p users (r ∷ rs) =
    let rest = holding_wallets p users rs in
    if eqb r.property_id p && truthy r.token_amount
    then elim (wallet_of r.user_id users) [ none ↦ rest | some wallet ↦ wallet ∷ rest ]
    else rest

unfoldable pub not_in : List Address → List Address → List Address
not_in already [] = []
not_in already (w ∷ ws) = let rest = not_in already ws in if mem w already then rest else w ∷ rest

module _ (c : Chain) (rpc : Rpc) where
  -- With a token, the wallets without a balance are left out.
  unfoldable pub on_chain_holders : Option Address → List Address → List Address
  on_chain_holders none ws = ws
  on_chain_holders (some token) [] = []
  on_chain_holders (some token) (w ∷ ws) =
      let rest = on_chain_holders (some token) ws in
      if truthy (erc20_balance c token w) then w ∷ rest else rest

  -- Adding the new investors, and the backfill for them, whose failure is logged.
  unfoldable pub add_new_investors : ℕ → List Address → World → Option (List Address) × World
  add_new_investors p [] w = (some [], w)
  add_new_investors p (x ∷ xs) w = elim (add_investors_to_rent rpc p (x ∷ xs) w) [
    | none ↦ (none, w)
    | some w' ↦ (some (x ∷ xs), (backfill_missed_rent_accruals c rpc p (x ∷ xs) w').1)
  ]

  unfoldable pub sync_investors_to_contract : ℕ → World → Option (List Address) × World
  sync_investors_to_contract p w =
      let wallets =
        on_chain_holders (token_of p w.store.properties)
          (holding_wallets p w.store.users w.store.ownerships) in
      if is_active (get_rent_property_info rpc p w)
      then add_new_investors p (not_in (get_or (get_rent_investors rpc p w) []) wallets) w
      else (some [], w)
