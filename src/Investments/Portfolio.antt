-- ===== src/Investments/Portfolio.antt =====
-- `get_portfolio` of backend/api/routers/investments.py.
use web3_real_estate.Base.{
  ℕ, ◌+◌, Bool, true, false, ◌&&◌, ◌||◌, eqb, truthy, if◌then◌else◌, Option, none, some, is_some,
  List, [], ◌∷◌, nat_eq, Result, ok, err,
}
use web3_real_estate.Base.Keyed.{find}
use web3_real_estate.Indexer.Rows.{Address, PropertyRow, OwnershipRow, WalletRow, Store}
use web3_real_estate.Indexer.Chain.{Chain}
use web3_real_estate.Indexer.Writes.{get_or_create_user_id, set_ownership}
use web3_real_estate.RentRoutes.{User, HttpError, may_claim_role, enforce_self_or_property_owner}

-- The rows that `_sync_wallet_holdings_from_chain` writes, and the wallet's user after it.
unfoldable pub sync_holding :
    Chain → Address → PropertyRow → Option ℕ → Store → ℕ × Option ℕ × Store
sync_holding c wallet row user_id s = elim row.token_address [
  | none ↦ (0, user_id, s)
  | some token ↦ elim (c.balance_of token wallet) [
    | none ↦ (0, user_id, s)
    | some balance ↦ if eqb balance 0 then (0, user_id, s) else elim user_id [
      | some user ↦ (1, some user, set_ownership user row.id balance s)
      | none ↦
          let (user, s') = get_or_create_user_id wallet s in
          (1, some user, set_ownership user row.id balance s')
    ]
  ]
]

unfoldable pub sync_wallet_holdings_from_chain :
    Chain → Address → List PropertyRow → Option ℕ → Store → ℕ × Option ℕ × Store
sync_wallet_holdings_from_chain c wallet [] user_id s = (0, user_id, s)
sync_wallet_holdings_from_chain c wallet (row ∷ rows) user_id s =
    let (n, user, s') = sync_holding c wallet row user_id s in
    let (m, user', s'') = sync_wallet_holdings_from_chain c wallet rows user s' in
    (n + m, user', s'')

pub record PortfolioItem : Type 0 where
  pub property_id : ℕ
  pub token_amount : ℕ

-- The join with `properties`
unfoldable pub portfolio_items : ℕ → List PropertyRow → List OwnershipRow → List PortfolioItem
portfolio_items user props [] = []
portfolio_items user props (r ∷ rs) =
    let rest = portfolio_items user props rs in
    if eqb r.user_id user
      && (truthy r.token_amount && is_some (find (λ (q : PropertyRow). q.id) r.property_id props))
    then record { property_id = r.property_id; token_amount = r.token_amount } ∷ rest
    else rest

unfoldable pub items_of : Option ℕ → Store → List PortfolioItem
items_of none s = []
items_of (some user) s = portfolio_items user s.properties s.ownerships

abbrev pub is_empty : List PortfolioItem → Bool
is_empty [] = true
is_empty (x ∷ xs) = false

-- `get_portfolio` of the route
unfoldable pub get_portfolio :
    Chain → User → Address → Bool → Store → Result HttpError (List PortfolioItem) × Store
get_portfolio c user wallet refresh s =
    if may_claim_role user.role && enforce_self_or_property_owner user wallet
    then (let known = find (λ (r : WalletRow). r.wallet_address) wallet s.users in
        let user_id : Option ℕ = elim known [ none ↦ none | some row ↦ some row.id ] in
        let items = items_of user_id s in
        if refresh || is_empty items
        then (let (n, user', s') =
              sync_wallet_holdings_from_chain c wallet s.properties user_id s in
            if truthy n then (ok (items_of user' s'), s') else (ok items, s))
        else (ok items, s))
    else (err HttpError.forbidden, s)
