-- ===== src/Investments/Orders.antt =====
-- `prepare_investment` of backend/api/routers/investments.py, with `get_total_minted_base` of
-- backend/api/_helpers.py and `investment_required_wei` of backend/services/investment_funding.py.
use web3_real_estate.Base.{
  ℕ, ◌+◌, ◌*◌, ◌/◌, ◌^◌, leb, eqb, truthy, if◌then◌else◌, none, some, List, [], ◌∷◌, nat_eq, Result,
  ok, err,
}
use web3_real_estate.Base.Keyed.{find}
use web3_real_estate.Base.Int.{pos}
use web3_real_estate.Indexer.Rows.{Address, PropertyRow, OwnershipRow}
use web3_real_estate.Indexer.Chain.{Chain}
use web3_real_estate.Indexer.Handlers.{to_base_units}
use web3_real_estate.Funding.{
  Node, Offer, FundingError, read_sale_price_per_token_wei, check_investor_can_fund_investment,
}
use web3_real_estate.Yield.{Rpc}
use web3_real_estate.RentRoutes.{
  User, HttpError, Site, may_claim_role, enforce_self_or_property_owner,
}
use web3_real_estate.Investments.{Desk, Answer, refuse, guard}

-- `SUM` over the positive holdings of a property
unfoldable pub get_total_minted_base : ℕ → List OwnershipRow → ℕ
get_total_minted_base p [] = 0
get_total_minted_base p (r ∷ rs) =
    (if eqb r.property_id p then r.token_amount else 0) + get_total_minted_base p rs

-- `int(payload.token_amount)`
unfoldable pub whole_tokens : ℕ → ℕ
whole_tokens amount_base = amount_base / 10 ^ 18

-- `investment_required_wei`
unfoldable pub investment_required_wei : Node → Offer → ℕ → Result FundingError ℕ
investment_required_wei node offer tokens =
    if eqb tokens 0
    then err FundingError.negative_amount
    else elim (read_sale_price_per_token_wei node offer) [
      | err e ↦ err e
      | ok price ↦ ok (price * tokens)
    ]

-- The columns of `properties` that only these routes read.
pub record Listing : Type 0 where
  pub token_supply : ℕ → ℕ
  pub offer : PropertyRow → Offer

pub record PreparedOrder : Type 0 where
  pub investment_id : ℕ
  pub property_id : ℕ
  pub investor_wallet : Address
  pub token_amount_base : ℕ
  pub eth_amount_wei : ℕ

module _ (c : Chain) (rpc : Rpc) (site : Site) (listing : Listing) where
  -- The INSERT of a prepared investment
  unfoldable pub insert_awaiting : ℕ → Address → ℕ → ℕ → ℕ → Desk → Answer PreparedOrder
  insert_awaiting p wallet amount_base required now d =
      let s = d.world.store in
      (
        ok (record {
          investment_id = s.next_investment;
          property_id = p;
          investor_wallet = wallet;
          token_amount_base = amount_base;
          eth_amount_wei = required;
        }),
        record {
          world = record (d.world) { store = record s { next_investment = s.next_investment + 1 } };
          awaiting =
              record {
                id = s.next_investment;
                property_id = p;
                investor_wallet = wallet;
                token_amount_base = amount_base;
                eth_amount_wei = required;
                created_at = now;
              }
              ∷ d.awaiting;
        },
      )

  -- The price, and whether the wallet can pay it
  unfoldable pub prepare_priced : PropertyRow → ℕ → Address → ℕ → ℕ → Desk → Answer PreparedOrder
  prepare_priced row p wallet amount_base now d =
      elim (investment_required_wei site.node (listing.offer row) (whole_tokens amount_base)) [
        | err e ↦ refuse HttpError.bad_request d
        | ok required ↦
            elim (check_investor_can_fund_investment site.node wallet (listing.offer row)
              (pos (whole_tokens amount_base))) [
                | err e ↦ refuse HttpError.server_error d
                | ok check ↦
                    guard check.funded HttpError.payment_required d
                      (insert_awaiting p wallet amount_base required now d)
              ]
      ]

  -- The supply of the property and the inventory of the token contract
  unfoldable pub prepare_in_stock :
      PropertyRow → Address → ℕ → Address → ℕ → ℕ → Desk → Answer PreparedOrder
  prepare_in_stock row token p wallet amount_base now d =
      guard
        (leb (get_total_minted_base p d.world.store.ownerships + amount_base)
          (to_base_units (listing.token_supply p)))
        HttpError.bad_request d
        (elim (read_sale_price_per_token_wei site.node (listing.offer row)) [
          | err e ↦ refuse HttpError.bad_gateway d
          | ok price ↦ elim (c.balance_of token token) [
            | none ↦ refuse HttpError.bad_gateway d
            | some inventory ↦
                guard (leb amount_base inventory) HttpError.bad_request d
                  (prepare_priced row p wallet amount_base now d)
          ]
        ])

  unfoldable pub prepare_investment : User → ℕ → Address → ℕ → ℕ → Desk → Answer PreparedOrder
  prepare_investment user p wallet amount_base now d =
      guard (may_claim_role user.role) HttpError.forbidden d (
        guard (truthy amount_base) HttpError.bad_request d (
          guard (enforce_self_or_property_owner user wallet) HttpError.forbidden d
            (elim (find (λ (r : PropertyRow). r.id) p d.world.store.properties) [
              | none ↦ refuse HttpError.not_found d
              | some row ↦ guard (site.is_active p) HttpError.not_found d (elim row.token_address [
                | none ↦ refuse HttpError.bad_request d
                | some token ↦
                    guard (site.is_security_token token) HttpError.bad_request d
                      (prepare_in_stock row token p wallet amount_base now d)
              ])
            ])))
