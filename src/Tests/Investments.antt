-- ===== src/Tests/Investments.antt =====
-- Runs of the theorems on the routes of investments.
use web3_real_estate.Base.{
  ℕ, ◌+◌, ◌*◌, ◌^◌, ◌≤◌, ◌<◌, ◌≡◌, refl, true, false, some, [], ◌∷◌, ok, nat_eq, Result,
}
use web3_real_estate.Base.Keyed.{find}
use web3_real_estate.Indexer.Rows.{Address, PropertyRow, InvestmentRow}
use web3_real_estate.Indexer.Chain.{Chain}
use web3_real_estate.Indexer.Handlers.{to_base_units}
use web3_real_estate.Funding.{
  read_sale_price_per_token_wei, read_native_balance_wei, on_chain_price,
  check_investor_can_fund_investment, check_wallet_covers_required_wei, compare_balance,
  total_price,
}
use web3_real_estate.RentRoutes.{
  User, Role, HttpError, may_claim_role, enforce_self_or_property_owner, is_owner,
}
use web3_real_estate.Investments.{AwaitingRow, Desk}
use web3_real_estate.Investments.Orders.{
  Listing, PreparedOrder, get_total_minted_base, whole_tokens, prepare_investment, prepare_in_stock,
  prepare_priced, investment_required_wei, insert_awaiting,
}
use web3_real_estate.Investments.Confirmation.{confirm_investment}
use web3_real_estate.Investments.Portfolio.{get_portfolio}
use web3_real_estate.Investments.Prepared.{prepare_investment_lem}
use web3_real_estate.Investments.Conflict.{Fails, confirm_investment_late}
use web3_real_estate.Investments.Refreshed.{get_portfolio_sold_out}
use web3_real_estate.Tests.Indexer.{five_held, chain, empty_store, house}
use web3_real_estate.Tests.Contract.{paid_once}
use web3_real_estate.Tests.Funding.{offer}
use web3_real_estate.Tests.Routes.{rpc, site}

abbrev listing : Listing
listing = record { token_supply = λ p. 100; offer = λ r. offer }

abbrev stocked : Chain
stocked = record chain { balance_of = λ token a. some (50 * 10 ^ 18) }

abbrev buyer : User
buyer = record { role = Role.investor; wallet = 7 }

abbrev desk : Desk
desk = record { world = record { store = empty_store; contract = paid_once }; awaiting = [] }

-- Three tokens at 30 wei.
abbrev order : PreparedOrder
order = record {
  investment_id = 1;
  property_id = 1;
  investor_wallet = 7;
  token_amount_base = 3 * 10 ^ 18;
  eth_amount_wei = 90;
}

abbrev prepared_answer : Result HttpError PreparedOrder
prepared_answer =
    (prepare_investment stocked rpc site listing buyer 1 7 (3 * 10 ^ 18) 1700000000 desk).0

prepares : prepared_answer ≡ ok order
unfolding prepare_investment may_claim_role enforce_self_or_property_owner is_owner find
    prepare_in_stock get_total_minted_base to_base_units read_sale_price_per_token_wei
    on_chain_price prepare_priced investment_required_wei whole_tokens
    check_investor_can_fund_investment total_price check_wallet_covers_required_wei
    read_native_balance_wei compare_balance insert_awaiting
prepares = refl

-- One and a half tokens are prepared at the price of one.
half_token_free :
    (prepare_investment stocked rpc site listing buyer 1 7 (15 * 10 ^ 17) 1700000000 desk).0
    ≡ ok (record order { token_amount_base = 15 * 10 ^ 17; eth_amount_wei = 30 })
unfolding prepare_investment may_claim_role enforce_self_or_property_owner is_owner find
    prepare_in_stock get_total_minted_base to_base_units read_sale_price_per_token_wei
    on_chain_price prepare_priced investment_required_wei whole_tokens
    check_investor_can_fund_investment total_price check_wallet_covers_required_wei
    read_native_balance_wei compare_balance insert_awaiting
half_token_free = refl

prepare_investment_lem_example :
    (enforce_self_or_property_owner buyer 7 ≡ true)
    × ((row : PropertyRow) × (token : Address) × (inventory : ℕ) × (price : ℕ) × (balance : ℕ)
        × (find (λ (r : PropertyRow). r.id) 1 (house ∷ []) ≡ some row)
        × (site.is_active 1 ≡ true)
        × (row.token_address ≡ some token)
        × (get_total_minted_base 1 [] + 3 * 10 ^ 18 ≤ to_base_units 100)
        × (stocked.balance_of token token ≡ some inventory)
        × (3 * 10 ^ 18 ≤ inventory)
        × (read_sale_price_per_token_wei site.node (listing.offer row) ≡ ok price)
        × (0 < whole_tokens (3 * 10 ^ 18))
        × (order.eth_amount_wei ≡ price * whole_tokens (3 * 10 ^ 18))
        × (read_native_balance_wei site.node 7 ≡ ok balance)
        × (price * whole_tokens (3 * 10 ^ 18) ≤ balance))
prepare_investment_lem_example =
    prepare_investment_lem stocked rpc site listing buyer 1 7 (3 * 10 ^ 18) 1700000000 desk order
      prepares

abbrev awaiting : AwaitingRow
awaiting = record {
  id = 1;
  property_id = 1;
  investor_wallet = 7;
  token_amount_base = 3 * 10 ^ 18;
  eth_amount_wei = 90;
  created_at = 1700000000;
}

abbrev indexed : InvestmentRow
indexed = record {
  id = 2;
  property_id = 1;
  investor_wallet = 7;
  token_amount_base = 3 * 10 ^ 18;
  eth_amount_wei = 90;
  deposit_tx_hash = 500;
  funded = true;
  created_at = 1700000012;
}

-- The indexer has the purchase already.
abbrev late_desk : Desk
late_desk = record {
  world = record {
    store = record empty_store { investments = indexed ∷ [] };
    contract = paid_once;
  };
  awaiting = awaiting ∷ [];
}

confirm_investment_late_example :
    Fails late_desk (confirm_investment chain rpc site buyer 1 500 1700000020 late_desk)
unfolding find
confirm_investment_late_example =
    confirm_investment_late chain rpc site buyer 1 500 1700000020 late_desk awaiting indexed refl
      refl

get_portfolio_sold_out_example :
    get_portfolio (record chain { balance_of = λ token a. some 0 }) buyer 7 true five_held
    ≡ get_portfolio (record chain { balance_of = λ token a. some 0 }) buyer 7 false five_held
get_portfolio_sold_out_example =
    get_portfolio_sold_out (record chain { balance_of = λ token a. some 0 }) 7 (λ token. refl) buyer
      five_held
