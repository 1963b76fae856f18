-- ===== src/Investments/Refreshed.antt =====
-- The refresh of `get_portfolio` of backend/api/routers/investments.py.
use web3_real_estate.Base.{
  ℕ, ◌≡◌, refl, true, false, Option, none, some, List, [], ◌∷◌, arith, nat_eq, Option-cases, inl,
  inr,
}
use web3_real_estate.Base.Keyed.{find}
use web3_real_estate.Indexer.Rows.{Address, PropertyRow, WalletRow, Store}
use web3_real_estate.Indexer.Chain.{Chain}
use web3_real_estate.RentRoutes.{User}
use web3_real_estate.Investments.Portfolio.{
  sync_holding, sync_wallet_holdings_from_chain, get_portfolio,
}

module _ (c : Chain) (wallet : Address)
    (sold_out : (token : Address) → c.balance_of token wallet ≡ some 0) where
  holding_kept :
      (row : PropertyRow) (user : Option ℕ) (s : Store)
      → sync_holding c wallet row user s ≡ (0, user, s)
  unfolding sync_holding
  holding_kept row user s = elim (Option-cases row.token_address) [
    | inl e ↦ ground (arith, e)
    | inr (token, e) ↦ ground (arith, e, sold_out token)
  ]

  holdings_kept :
      (rows : List PropertyRow) (user : Option ℕ) (s : Store)
      → sync_wallet_holdings_from_chain c wallet rows user s ≡ (0, user, s)
  unfolding sync_wallet_holdings_from_chain
  holdings_kept [] user s = refl
  holdings_kept (row ∷ rows) user s =
      rw (holding_kept row user s) (rw (holdings_kept rows user s) refl)

  -- For a wallet that holds no token of any property any more, the refresh of its portfolio does
  -- nothing: it shows and keeps whatever holdings the database has, as without the refresh.
  pub get_portfolio_sold_out :
      (user : User) (s : Store)
      → get_portfolio c user wallet true s ≡ get_portfolio c user wallet false s
  unfolding get_portfolio
  get_portfolio_sold_out user s = ground (
    arith,
    holdings_kept s.properties
        (elim (find (λ (r : WalletRow). r.wallet_address) wallet s.users) [
          | none ↦ none
          | some row ↦ some row.id
        ])
        s,
  )
