-- ===== src/Tests/Yield.antt =====
-- Runs of the theorems on the yield of investors and on the routes of rent payments, and runs in
-- which the backend credits more than a rent gives out.
use web3_real_estate.Base.{
  ◌+◌, ◌≡◌, refl, ap, true, some, List, [], ◌∷◌, arith, nat_eq, pair_eq, ltb,
}
use web3_real_estate.Base.Keyed.{find, upsert}
use web3_real_estate.Base.Ledger.{amount_of, put, total}
use web3_real_estate.Indexer.Rows.{Store, DistributionRow, PayoutRow, ClaimStatus, Percentage}
use web3_real_estate.Indexer.Payouts.{
  wallet_of, erc20_balance, token_of, get_rent_distribution_breakdown, insert_payout, or_else,
  positive_shares, backfill_investor_payout_rows_for_distribution, backfill_shares, backfill_share,
}
use web3_real_estate.RentContract
use web3_real_estate.RentContract.{
  Contract, max_rent, calculate_distribution, shares_of, credit, count, push_investors,
  push_investor, add_investors,
}
use web3_real_estate.RentContract.Sound.{owed}
use web3_real_estate.Yield.{
  Rpc, World, get_rent_property_info, get_rent_investors, get_property_claimable_rewards, send,
  add_investors_to_rent, accrue_investor_rewards,
}
use web3_real_estate.Yield.Backfill.{
  Credit, mem, seen, breakdown, insert_distribution, distributions_of, already_wei, raise_payout,
  missed_row, record_payout, passes, backfill_entry, backfill_entries, backfill_distribution,
  backfill_distributions, backfill_missed_rent_accruals,
}
use web3_real_estate.Yield.Investors.{
  holding_wallets, on_chain_holders, not_in, add_new_investors, sync_investors_to_contract,
}
use web3_real_estate.Yield.Payouts.{
  pending, top_up, reconcile_investor_claimable_on_chain, accrue_unpaid,
  finalize_investor_rent_yield_after_payment,
}
use web3_real_estate.Yield.Accruals.{credit_sum, backfill_missed_rent_accruals-owed}
use web3_real_estate.Yield.Again.{backfill_missed_rent_accruals_again}
use web3_real_estate.Yield.TopUp.{reconcile_investor_claimable_on_chain_lem}
use web3_real_estate.Tests.Indexer.{empty_store}
use web3_real_estate.Tests.Contract.{token_chain, paid_once}

abbrev rpc : Rpc
rpc = record { reads = λ p. true; sends = λ p. true; supports_accrue = true }

abbrev sixty_percent : Percentage
sixty_percent = record { numerator = 60000; denominator = 1000 }

abbrev first_rent : DistributionRow
first_rent = record {
  id = 1;
  property_id = 1;
  rent_payment_id = 1;
  total_rent_collected = 1000;
  total_distributed = 600;
  investor_count = 1;
  distribution_tx_hash = 800;
  distributed_at = 1700000000;
}

abbrev row_of_7 : PayoutRow
row_of_7 = record {
  distribution_id = 1;
  investor_wallet = 7;
  property_id = 1;
  ownership_percentage = sixty_percent;
  payout_amount_wei = 600;
  tx_hash = 800;
  distributed_at = 1700000000;
  claim = ClaimStatus.claimable;
}

-- Wallets 7 and 8 hold tokens; the rent of 1000 has paid 600 to wallet 7, the only investor that
-- the contract knew.
abbrev store : Store
store = record empty_store {
  users = record { id = 1; wallet_address = 7 } ∷ record { id = 2; wallet_address = 8 } ∷ [];
  ownerships =
      record { user_id = 1; property_id = 1; token_amount = 60 }
      ∷ record { user_id = 2; property_id = 1; token_amount = 40 }
      ∷ [];
  distributions = first_rent ∷ [];
  payouts = row_of_7 ∷ [];
}

abbrev world : World
world = record { store = store; contract = paid_once }

-- The same, for the runs of the routes.
abbrev pub missing : World
missing = world

-- The same with wallet 8 registered.
abbrev both : World
both = record {
  store = store;
  contract = record paid_once { investors = λ p. 7 ∷ 8 ∷ []; is_investor = λ p a. ltb a 9 };
}

abbrev missed : List Credit
missed = record { investor_wallet = 8; distribution_id = 1; amount_wei = 400 } ∷ []

abbrev filled : World
filled = (backfill_missed_rent_accruals token_chain rpc 1 [] both).1

fills : backfill_missed_rent_accruals token_chain rpc 1 [] both ≡ (some missed, filled)
unfolding backfill_missed_rent_accruals get_rent_property_info distributions_of insert_distribution
    backfill_distributions backfill_distribution backfill_entries backfill_entry breakdown seen
    get_rent_distribution_breakdown calculate_distribution RentContract.all_read shares_of
    positive_shares or_else passes already_wei find accrue_investor_rewards send
    RentContract.accrue_investor_rewards credit amount_of put record_payout missed_row insert_payout
    upsert
fills = refl

backfill_missed_rent_accruals-owed_example :
    owed filled.contract ≡ owed paid_once + credit_sum missed
backfill_missed_rent_accruals-owed_example =
    backfill_missed_rent_accruals-owed rpc refl 1 [] token_chain both missed (ap (λ r. r.0) fills)

backfill_missed_rent_accruals_again_example :
    backfill_missed_rent_accruals token_chain rpc 1 [] filled ≡ (some [], filled)
backfill_missed_rent_accruals_again_example =
    backfill_missed_rent_accruals_again rpc refl 1 [] token_chain both filled missed fills

-- The rent of 1000 left 400 for wallet 8, which the contract did not know. After the payment the
-- backend credits the 400 by the backfill, and once more by its last loop: the contract then owes
-- 1400 and holds 1000.
finalize_credits_twice :
    owed
      (finalize_investor_rent_yield_after_payment token_chain rpc 1 1 1000 800 1700000000
        (7 ∷ [])
        world).1.contract
    ≡ 1400
unfolding finalize_investor_rent_yield_after_payment sync_investors_to_contract token_of find
    holding_wallets wallet_of on_chain_holders erc20_balance not_in mem get_rent_investors
    add_new_investors add_investors_to_rent RentContract.add_investors push_investors push_investor
    count backfill_missed_rent_accruals get_rent_property_info distributions_of insert_distribution
    backfill_distributions backfill_distribution backfill_entries backfill_entry breakdown seen
    get_rent_distribution_breakdown calculate_distribution RentContract.all_read shares_of
    positive_shares or_else passes already_wei accrue_investor_rewards send
    RentContract.accrue_investor_rewards credit amount_of put record_payout missed_row insert_payout
    upsert backfill_investor_payout_rows_for_distribution backfill_shares backfill_share
    accrue_unpaid total
finalize_credits_twice = refl

-- A payout of 250 that wallet 8 has claimed, and whose share has since grown to 400.
abbrev claimed_before : World
claimed_before = record both {
  store = record store {
    payouts =
        record row_of_7 {
          investor_wallet = 8;
          payout_amount_wei = 250;
          claim = ClaimStatus.claimed 900 1700000100;
        }
        ∷ row_of_7
        ∷ [];
  };
}

abbrev raised : World
raised = (backfill_missed_rent_accruals token_chain rpc 1 [] claimed_before).1

abbrev topped_up : World
topped_up = (reconcile_investor_claimable_on_chain token_chain rpc 1 8 raised).1

-- The backfill credits the missing 150 and marks the whole 400 as claimable; the reconciliation then
-- credits the 250 again that had been claimed.
tops_up : reconcile_investor_claimable_on_chain token_chain rpc 1 8 raised ≡ (some 250, topped_up)
unfolding reconcile_investor_claimable_on_chain pending get_property_claimable_rewards top_up
    sync_investors_to_contract token_of find holding_wallets wallet_of on_chain_holders
    erc20_balance not_in mem get_rent_investors add_new_investors backfill_missed_rent_accruals
    get_rent_property_info distributions_of insert_distribution backfill_distributions
    backfill_distribution backfill_entries backfill_entry breakdown seen
    get_rent_distribution_breakdown calculate_distribution RentContract.all_read shares_of
    positive_shares or_else passes already_wei accrue_investor_rewards send
    RentContract.accrue_investor_rewards credit amount_of put record_payout raise_payout
tops_up = refl

reconcile_investor_claimable_on_chain_lem_example :
    amount_of (1, 8) topped_up.contract.property_claimable_rewards
    ≡ pending 1 8 raised.store.payouts
reconcile_investor_claimable_on_chain_lem_example =
    reconcile_investor_claimable_on_chain_lem rpc refl 1 8 token_chain 250 raised topped_up tops_up
      (omega arith)
