-- ===== src/Investments/Prepared.antt =====
-- What `prepare_investment` of backend/api/routers/investments.py grants.
use web3_real_estate.Base.{
  ℕ, ◌+◌, ◌*◌, ◌≤◌, ◌<◌, ◌≡◌, true, some, arith, Option-cases, Result-cases, inl, inr, ok, nat_eq,
}
use web3_real_estate.Base.Keyed.{find}
use web3_real_estate.Base.Int.{pos}
use web3_real_estate.Indexer.Rows.{Address, PropertyRow}
use web3_real_estate.Indexer.Chain.{Chain}
use web3_real_estate.Indexer.Handlers.{to_base_units}
use web3_real_estate.Funding.{
  read_sale_price_per_token_wei, read_native_balance_wei, check_investor_can_fund_investment,
  investor_funded,
}
use web3_real_estate.Yield.{Rpc}
use web3_real_estate.RentRoutes.{User, Site, enforce_self_or_property_owner}
use web3_real_estate.Investments.{Desk}
use web3_real_estate.Investments.Orders.{
  Listing, PreparedOrder, get_total_minted_base, whole_tokens, investment_required_wei,
  insert_awaiting, prepare_priced, prepare_in_stock, prepare_investment,
}

module _ (c : Chain) (rpc : Rpc) (site : Site) (listing : Listing) where
  priced :
      (row : PropertyRow) (p : ℕ) (wallet : Address) (amount now : ℕ) (d : Desk)
      (order : PreparedOrder)
      → (prepare_priced c rpc site listing row p wallet amount now d).0 ≡ ok order
      → (price : ℕ) × (read_sale_price_per_token_wei site.node (listing.offer row) ≡ ok price)
        × (0 < whole_tokens amount)
        × (order.eth_amount_wei ≡ price * whole_tokens amount)
        × ((balance : ℕ) × (read_native_balance_wei site.node wallet ≡ ok balance)
            × (price * whole_tokens amount ≤ balance))
  priced row p wallet amount now d order h =
      elim (Result-cases (read_sale_price_per_token_wei site.node (listing.offer row))) [
        | inr (e, f) ↦
            absurd (unfold prepare_priced investment_required_wei in ground (arith, h, f))
        | inl (price, f) ↦
            elim (Result-cases (
              check_investor_can_fund_investment site.node wallet (listing.offer row)
                (pos (whole_tokens amount)))) [
                  | inr (e, g) ↦
                      absurd
                        (unfold prepare_priced investment_required_wei in ground (arith, h, f, g))
                  | inl (check, g) ↦
                      let (q, same, _, balance, iff, _) =
                        investor_funded site.node wallet (listing.offer row) (whole_tokens amount)
                          check g in
                      (
                        price,
                        f,
                        unfold prepare_priced investment_required_wei in ground (arith, h, f, g),
                        unfold prepare_priced investment_required_wei insert_awaiting in
                            ground (arith, h, f, g),
                        (
                          check.balance_wei,
                          balance,
                          unfold prepare_priced investment_required_wei in
                              ground (arith, h, f, g, same, iff),
                        ),
                      )
                ]
      ]

  -- An order that is prepared fits: its property is known and active and has a token, the tokens
  -- held by all investors and the order together are within the property's supply, and the token
  -- contract has the order in stock. The price of its whole tokens at the sale price is what the
  -- order asks for, and the wallet's balance covers it.
  pub prepare_investment_lem :
      (user : User) (p : ℕ) (wallet : Address) (amount now : ℕ) (d : Desk) (order : PreparedOrder)
      → (prepare_investment c rpc site listing user p wallet amount now d).0 ≡ ok order
      → (enforce_self_or_property_owner user wallet ≡ true)
        × ((row : PropertyRow) × (token : Address) × (inventory : ℕ) × (price : ℕ) × (balance : ℕ)
            × (find (λ (r : PropertyRow). r.id) p d.world.store.properties ≡ some row)
            × (site.is_active p ≡ true)
            × (row.token_address ≡ some token)
            × (get_total_minted_base p d.world.store.ownerships + amount
                ≤ to_base_units (listing.token_supply p))
            × (c.balance_of token token ≡ some inventory)
            × (amount ≤ inventory)
            × (read_sale_price_per_token_wei site.node (listing.offer row) ≡ ok price)
            × (0 < whole_tokens amount)
            × (order.eth_amount_wei ≡ price * whole_tokens amount)
            × (read_native_balance_wei site.node wallet ≡ ok balance)
            × (price * whole_tokens amount ≤ balance))
  unfolding prepare_investment prepare_in_stock
  prepare_investment_lem user p wallet amount now d order h =
      elim (Option-cases (find (λ (r : PropertyRow). r.id) p d.world.store.properties)) [
        | inl f ↦ absurd (ground (arith, h, f))
        | inr (row, f) ↦ elim (Option-cases row.token_address) [
          | inl g ↦ absurd (ground (arith, h, f, g))
          | inr (token, g) ↦
              elim (Result-cases (read_sale_price_per_token_wei site.node (listing.offer row))) [
                | inr (e, k) ↦ absurd (ground (arith, h, f, g, k))
                | inl (price, k) ↦ elim (Option-cases (c.balance_of token token)) [
                  | inl l ↦ absurd (ground (arith, h, f, g, k, l))
                  | inr (inventory, l) ↦
                      let (price', k', some_tokens, asked, (balance, read, enough)) =
                        priced row p wallet amount now d order (ground (arith, h, f, g, k, l)) in
                      (
                        ground (arith, h, f, g, k, l),
                        (
                          row,
                          token,
                          inventory,
                          price',
                          balance,
                          f,
                          ground (arith, h, f, g, k, l),
                          g,
                          ground (arith, h, f, g, k, l),
                          l,
                          ground (arith, h, f, g, k, l),
                          k',
                          some_tokens,
                          asked,
                          read,
                          enough,
                        ),
                      )
                ]
              ]
        ]
      ]
