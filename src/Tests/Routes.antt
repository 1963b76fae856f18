-- ===== src/Tests/Routes.antt =====
-- Runs of the theorems on the routes of rent payments and on the rent of the contract.
use web3_real_estate.Base.{
  ◌*◌, ◌^◌, ◌≤◌, ◌≡◌, refl, true, false, none, some, [], ◌∷◌, arith, nat_eq, ok, err, get_or,
  Result,
}
use web3_real_estate.Base.Keyed.{find, upsert}
use web3_real_estate.Indexer.Rows.{PropertyRow}
use web3_real_estate.Indexer.Chain.{Chain, Tx, Receipt, RentPaidEvent}
use web3_real_estate.Base.Ledger.{amount_of, put, total}
use web3_real_estate.Indexer.Payouts.{
  token_of, wallet_of, erc20_balance, get_rent_distribution_breakdown, insert_payout, or_else,
  positive_shares,
}
use web3_real_estate.Rent.Cycle.{DateTime}
use web3_real_estate.Rent.Eligibility.{
  tenant_may_pay_rent, build_tenant_property_rent_fields, get_property_active_rental_holder,
  claimed_by_other,
}
use web3_real_estate.Rent.Cycle.{
  property_rent_period_status, compute_rent_period_status,
  get_last_confirmed_rent_payment_for_property, latest,
}
use web3_real_estate.RentContract
use web3_real_estate.RentContract.{Contract, max_rent, calculate_distribution, shares_of, credit}
use web3_real_estate.Yield.{
  Rpc, World, get_rent_property_info, send, get_rent_investors, add_investors_to_rent,
  accrue_investor_rewards,
}
use web3_real_estate.Yield.Backfill.{
  seen, breakdown, backfill_missed_rent_accruals, distributions_of, insert_distribution,
  backfill_distributions, backfill_distribution, backfill_entries, backfill_entry, passes,
  already_wei, record_payout, missed_row, mem,
}
use web3_real_estate.Yield.Investors.{
  holding_wallets, on_chain_holders, not_in, add_new_investors, sync_investors_to_contract,
}
use web3_real_estate.Yield.Setup.{
  SetupError, require_property_token, synced_investors, validate_monthly_rent_for_chain,
  ensure_rent_property_registered, ensure_rent_chain_ready_for_payment,
  sync_rent_amount_to_contract, write_rent, set_monthly_rent,
}
use web3_real_estate.Yield.Ready.{
  ensure_rent_chain_ready_for_payment_oversized, sync_rent_amount_to_contract_lem,
}
use web3_real_estate.RentRoutes.{
  rent_fields, payments_of, rentals_of, User, Role, Site, HttpError, enforce_self_or_property_owner,
  may_pay_role, is_owner,
}
use web3_real_estate.RentRoutes.Payments.{
  Confirmation, confirm_rent_payment, prepare_rent_payment, prepare_request, effective_wallet,
  wallet_may_pay, prepare_checked, prepared, payable,
}
use web3_real_estate.RentRoutes.Refusals.{confirm_rent_payment_refused}
use web3_real_estate.Tests.Indexer.{empty_store, house}
use web3_real_estate.Funding.{
  check_tenant_can_pay_monthly_rent, check_wallet_covers_required_wei, read_native_balance_wei,
  compare_balance,
}
use web3_real_estate.RentContract.Sound.{owed}
use web3_real_estate.Tests.Yield.{missing}
use web3_real_estate.Tests.Contract.{token_chain, paid_once}
use web3_real_estate.Tests.Funding.{node}

abbrev pub rpc : Rpc
rpc = record { reads = λ p. true; sends = λ p. true; supports_accrue = true }

abbrev world : World
world = record { store = empty_store; contract = paid_once }

abbrev dear_house : PropertyRow
dear_house = record house { monthly_rent_wei = some (101 * 10 ^ 18) }

ensure_rent_chain_ready_for_payment_oversized_example :
    (e : SetupError) × (ensure_rent_chain_ready_for_payment token_chain rpc
        (λ a. true)
        false
        dear_house
        1
        world
      ≡ err e)
ensure_rent_chain_ready_for_payment_oversized_example =
    ensure_rent_chain_ready_for_payment_oversized token_chain rpc (λ a. true) false dear_house 1
      world (omega arith)

abbrev cheap_house : PropertyRow
cheap_house = record house { monthly_rent_wei = some 900 }

abbrev lowered : World
lowered = record world {
  contract = record paid_once {
    properties =
        RentContract.set_at 1
          (record { token_contract = 70; monthly_rent_wei = 900; active = true })
          (paid_once.properties);
  };
}

lowers_rent :
    sync_rent_amount_to_contract token_chain rpc (λ a. true) false cheap_house 1 world
    ≡ ok (900, lowered)
unfolding sync_rent_amount_to_contract validate_monthly_rent_for_chain get_rent_property_info
    write_rent set_monthly_rent send RentContract.set_monthly_rent
lowers_rent = refl

sync_rent_amount_to_contract_lem_example :
    (900 ≡ get_or cheap_house.monthly_rent_wei 0)
    × (900 ≤ max_rent)
    × ((lowered.contract.properties 1).active ≡ true)
    × ((lowered.contract.properties 1).monthly_rent_wei ≡ 900)
sync_rent_amount_to_contract_lem_example =
    sync_rent_amount_to_contract_lem token_chain rpc (λ a. true) false cheap_house 1 900 world
      lowered lowers_rent (omega arith)

abbrev some_time : DateTime
some_time = record { date = record { year = 2024; month = 5; day = 15 }; time = 0 }

abbrev pub site : Site
site = record {
  is_active = λ p. true;
  owner_wallet = λ p. some 3;
  wallet_text = λ a. a ∷ [];
  now = some_time;
  is_security_token = λ a. true;
  mismatch = false;
  node = node;
  rewards_accrued = λ r. [];
}

abbrev outsider : User
outsider = record { role = Role.investor; wallet = 7 }

confirm_rent_payment_refused_example :
    (confirm_rent_payment token_chain rpc site outsider 1 5 800 world).1 ≡ world
unfolding confirm_rent_payment may_pay_role
confirm_rent_payment_refused_example =
    confirm_rent_payment_refused token_chain rpc site outsider 1 5 800 world HttpError.forbidden tt
      refl

abbrev renter : User
renter = record { role = Role.tenant; wallet = 5 }

abbrev rent_tx : Tx
rent_tx = record { hash = 800; from_address = 5; to_address = some 90; value = 1500; gas_price = 2 }

abbrev rent_event : RentPaidEvent
rent_event = record { log_index = 0; address = 90; property_id = 1; tenant = 5; amount = 1000 }

abbrev rent_receipt : Receipt
rent_receipt = record {
  status = 1;
  block_number = 12;
  gas_used = 21;
  effective_gas_price = 2;
  investment_events = [];
  transfer_events = [];
  rent_paid_events = rent_event ∷ [];
  investor_paid_events = [];
  rent_distributed_events = [];
  rewards_claimed_events = [];
}

abbrev rent_chain : Chain
rent_chain = record token_chain {
  get_transaction = λ h. some rent_tx;
  get_receipt = λ h. some rent_receipt;
}

abbrev answer : Result HttpError Confirmation
answer = (confirm_rent_payment rent_chain rpc site renter 1 5 800 world).0

abbrev confirmed : Confirmation
confirmed = record {
  rent_payment_id = 1;
  distribution_id = some 1;
  amount_wei = 1500;
  investors_paid = 0;
  total_distributed_wei = 0;
}

-- Wallet 8 has missed the first rent. The preparation of a payment adds it to the contract and
-- credits its 400, but does not keep the row of it; the next backfill credits the 400 again.
prepare_credits_again :
    let w = (prepare_rent_payment token_chain rpc site renter 1 none missing).1 in
    (owed w.contract ≡ 1000)
    × (owed (backfill_missed_rent_accruals token_chain rpc 1 [] w).1.contract ≡ 1400)
unfolding prepare_rent_payment prepare_request may_pay_role effective_wallet find
    require_property_token wallet_may_pay enforce_self_or_property_owner is_owner rent_fields
    payments_of rentals_of build_tenant_property_rent_fields property_rent_period_status
    compute_rent_period_status get_last_confirmed_rent_payment_for_property latest
    get_property_active_rental_holder claimed_by_other tenant_may_pay_rent prepare_checked
    ensure_rent_chain_ready_for_payment ensure_rent_property_registered get_rent_property_info
    sync_rent_amount_to_contract validate_monthly_rent_for_chain write_rent synced_investors
    sync_investors_to_contract token_of holding_wallets wallet_of on_chain_holders erc20_balance
    get_rent_investors not_in mem add_new_investors add_investors_to_rent RentContract.add_investors
    RentContract.push_investors RentContract.push_investor RentContract.count send
    backfill_missed_rent_accruals distributions_of insert_distribution backfill_distributions
    backfill_distribution breakdown seen get_rent_distribution_breakdown calculate_distribution
    RentContract.all_read shares_of positive_shares or_else backfill_entries backfill_entry passes
    already_wei accrue_investor_rewards RentContract.accrue_investor_rewards credit amount_of put
    record_payout missed_row insert_payout upsert prepared payable check_tenant_can_pay_monthly_rent
    check_wallet_covers_required_wei read_native_balance_wei compare_balance total
prepare_credits_again = (refl, refl)
