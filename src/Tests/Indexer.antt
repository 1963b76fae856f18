-- ===== src/Tests/Indexer.antt =====
-- Runs of the indexer's theorems on a small chain and a small database.
use web3_real_estate.Base.{
  Option, ℕ, ◌+◌, ◌-◌, ◌≤◌, ◌≡◌, refl, ltb, if◌then◌else◌, none, some, List, [], ◌∷◌, arith, ok,
  err, true, false, inl, get_or, pair_beq, ◌⊎◌, nat_eq,
}
use web3_real_estate.Base.Keyed.{find, upsert}
use web3_real_estate.Indexer.Rows.{
  WalletRow, RentPaymentRow, Failure, EventName, PropertyRow, TransactionRow, PayoutRow, Store,
  TxType, ClaimStatus, TxHash,
}
use web3_real_estate.Indexer.Chain.{TransferEvent, Chain, Tx, Receipt, InvestmentEvent}
use web3_real_estate.Indexer.Logs.{Query, scan, after_error, fetch_event_logs, Provider}
use web3_real_estate.Indexer.Logs.Complete.{
  between, IsHonest, IsResponsive, fetch_event_logs_complete,
}
use web3_real_estate.Indexer.Sync.{get_sync_state, seed_sync_state, sync_once}
use web3_real_estate.Indexer.Sync.Passes.{Passed}
use web3_real_estate.Indexer.Sync.Lost.{Refuses, sync_once_lost}
use web3_real_estate.Indexer.Sync.Outcome.{Stopped, sync_once_outcome}
use web3_real_estate.Indexer.Writes.{record_event, get_or_create_user_id}
use web3_real_estate.Indexer.Handlers.{
  handle_investment_event, handle_transfer_event, to_base_units,
}
use web3_real_estate.Indexer.Cycle.{upsert_rent_payment_second}
use web3_real_estate.Indexer.Replay.{record_event_again, get_or_create_user_id_again}
use web3_real_estate.Indexer.Transfers.{handle_transfer_event_total, handle_transfer_event_replayed}
use web3_real_estate.Indexer.Ownership.{owned, total_owned, handle_investment_event_holdings}
use web3_real_estate.Indexer.Payouts.{
  add_holder, insert_holder, wallet_of, before, erc20_balance,
  build_rent_distribution_preview_from_db, holders, total_minted, with_chain_balance,
}
use web3_real_estate.Indexer.Payouts.Bounds.{payout_sum, IsBacked, preview_le_rent}
use web3_real_estate.Indexer.RentHandlers.{same_cycle, cycle_taken, upsert_rent_payment}

-- One log in every block, named for it.
abbrev logs_of : ℕ → List TxHash
logs_of block = block ∷ []

-- A provider that answers windows of two blocks, and asks to split wider ones.
abbrev narrow : Query
narrow attempt start stop =
    if ltb 1 (stop - start)
    then err (record { retryable = false; splittable = true })
    else ok (between logs_of start stop)

narrow-IsHonest : IsHonest narrow logs_of
narrow-IsHonest a start stop l h e = ground arith

narrow-IsResponsive : IsResponsive narrow logs_of
unfolding scan after_error
narrow-IsResponsive start stop h e = ground arith

fetch_event_logs_complete_example : fetch_event_logs narrow 3 9 ≡ between logs_of 3 9
fetch_event_logs_complete_example =
    fetch_event_logs_complete narrow logs_of narrow-IsHonest narrow-IsResponsive 3 9 (omega arith)

abbrev pub house : PropertyRow
house = record { id = 1; token_address = some 70; monthly_rent_wei = some 1000 }

abbrev pub purchase : Tx
purchase = record { hash = 500; from_address = 7; to_address = some 70; value = 30; gas_price = 2 }

abbrev bought : InvestmentEvent
bought = record { log_index = 0; address = 70; investor = 7; token_amount = 3; eth_spent = 30 }

abbrev pub purchase_receipt : Receipt
purchase_receipt = record {
  status = 1;
  block_number = 12;
  gas_used = 21;
  effective_gas_price = 2;
  investment_events = bought ∷ [];
  transfer_events = [];
  rent_paid_events = [];
  investor_paid_events = [];
  rent_distributed_events = [];
  rewards_claimed_events = [];
}

abbrev pub chain : Chain
chain = record {
  get_transaction = λ h. some purchase;
  get_receipt = λ h. some purchase_receipt;
  block_timestamp = λ b. some (1700000000 + b);
  native_balance = λ a. some 900;
  balance_of = λ token a. some 3;
  total_supply = λ token. none;
  is_contract = λ a. true;
  rent_distribution_address = none;
  registered_token = λ id. none;
  calculate_distribution = λ id rent. none;
}

abbrev pub empty_store : Store
empty_store = record {
  properties = house ∷ [];
  events = [];
  transactions = [];
  users = [];
  tenants = [];
  ownerships = [];
  investments = [];
  rent_payments = [];
  rentals = [];
  distributions = [];
  payouts = [];
  sync_state = none;
  next_user = 1;
  next_tenant = 1;
  next_investment = 1;
  next_payment = 1;
  next_distribution = 1;
}

abbrev provider : Provider
provider address name = narrow

unsynced : get_sync_state empty_store ≡ 0
unfolding get_sync_state
unsynced = refl

sync_once_outcome_example :
    let t = (sync_once chain provider 12 10 empty_store).1 in
    let seeded = seed_sync_state chain provider 12 10 empty_store in
    (get_sync_state empty_store ≤ get_sync_state t)
    × ((12 ≤ get_sync_state t) ⊎ Stopped chain provider 12 t)
    × (((12 ≤ get_sync_state seeded) × (t ≡ seeded))
        ⊎ ((first : ℕ) × (first ≤ get_sync_state seeded + 1)
            × Passed chain provider 12 first seeded t))
sync_once_outcome_example = sync_once_outcome chain provider 12 10 empty_store (inl unsynced)

handle_investment_event_holdings_example :
    (t : Store) × (handle_investment_event chain purchase purchase_receipt house 70 bought true
        empty_store
      ≡ ok (tt, t))
    × ((v q : ℕ)
        → let user = (get_or_create_user_id 7 empty_store).0 in
          owned v q t.ownerships ≡ (
            if pair_beq (v, q) (user, 1)
            then (if true
                then owned v q empty_store.ownerships + to_base_units 3
                else get_or (chain.balance_of 70 7) (owned v q empty_store.ownerships))
            else owned v q empty_store.ownerships))
handle_investment_event_holdings_example =
    handle_investment_event_holdings chain purchase purchase_receipt house 70 bought true
      empty_store refl refl

abbrev two_holders : Store
two_holders = record empty_store {
  users = record { id = 1; wallet_address = 7 } ∷ record { id = 2; wallet_address = 8 } ∷ [];
  ownerships =
      record { user_id = 1; property_id = 1; token_amount = 3 }
      ∷ record { user_id = 2; property_id = 1; token_amount = 4 }
      ∷ [];
  next_user = 3;
}

-- A token with a supply of ten, of which everybody holds three.
abbrev supplied : Chain
supplied = record chain { total_supply = λ token. some 10 }

supplied-IsBacked : IsBacked supplied (holders 1 two_holders.users two_holders.ownerships)
unfolding holders add_holder insert_holder wallet_of before with_chain_balance erc20_balance
    total_minted
supplied-IsBacked token n e = ground (arith, e)

preview_le_rent_example :
    payout_sum (build_rent_distribution_preview_from_db supplied 1 1000 two_holders) ≤ 1000
preview_le_rent_example = preview_le_rent supplied 1 1000 two_holders supplied-IsBacked

abbrev payout : PayoutRow
payout = record {
  distribution_id = 1;
  investor_wallet = 7;
  property_id = 1;
  ownership_percentage = record { numerator = 42857; denominator = 1000 };
  payout_amount_wei = 428;
  tx_hash = 600;
  distributed_at = 100;
  claim = ClaimStatus.claimable;
}

abbrev claim : TransactionRow
claim = record {
  tx_hash = 601;
  tx_type = TxType.rewards_claimed;
  amount = 428;
  timestamp = 150;
  property_id = 1;
  block_number = 13;
  wallet_address = 7;
  gas_fee = none;
  amount_spent = none;
  remaining_balance = none;
}

record_event_again_example :
    let t = (record_event 500 0 12 70 EventName.transfer empty_store).1 in
    record_event 500 0 12 70 EventName.transfer t ≡ (false, t)
record_event_again_example =
    record_event_again 500 0 12 12 70 70 EventName.transfer EventName.transfer empty_store

get_or_create_user_id_again_example :
    let (id, t) = get_or_create_user_id 7 empty_store in get_or_create_user_id 7 t ≡ (id, t)
get_or_create_user_id_again_example = get_or_create_user_id_again 7 empty_store

abbrev march_rent : RentPaymentRow
march_rent = record {
  id = 1;
  tenant_id = 4;
  property_id = 1;
  amount_wei = 1000;
  tx_hash = 700;
  block_number = 12;
  payment_date = 1709300000;
  confirmed = true;
  rent_month = 3;
  rent_year = 2024;
}

abbrev march_again : RentPaymentRow
march_again = record march_rent {
  id = 2;
  tx_hash = 701;
  block_number = 14;
  payment_date = 1711800000;
}

abbrev march_paid : Store
march_paid = record empty_store { rent_payments = march_rent ∷ []; next_payment = 2 }

march_twice : same_cycle march_again march_rent ≡ true
unfolding same_cycle
march_twice = refl

march_written : upsert_rent_payment march_rent empty_store ≡ ok (1, march_paid)
unfolding upsert_rent_payment cycle_taken upsert find
march_written = refl

upsert_rent_payment_second_example :
    upsert_rent_payment march_again march_paid ≡ err Failure.unique_violation
upsert_rent_payment_second_example =
    upsert_rent_payment_second march_rent march_again 1 empty_store march_paid march_twice
      march_written

-- Wallet 7 sends 2 of its 5 tokens to wallet 8.
abbrev sent : TransferEvent
sent = record { log_index = 1; address = 70; from_address = 7; to_address = 8; value = 2 }

abbrev holder_row : WalletRow
holder_row = record { id = 1; wallet_address = 7 }

abbrev pub five_held : Store
five_held = record empty_store {
  users = holder_row ∷ [];
  next_user = 2;
  ownerships = record { user_id = 1; property_id = 1; token_amount = 5 } ∷ [];
}

five_owned : owned (get_or_create_user_id 7 five_held).0 1 five_held.ownerships ≡ 5
unfolding owned get_or_create_user_id find
five_owned = refl

handle_transfer_event_total_example :
    (t : Store) × (handle_transfer_event chain purchase purchase_receipt house 70 sent true
        five_held
      ≡ ok (tt, t))
    × (total_owned 1 t.ownerships + 2 ≡ total_owned 1 five_held.ownerships + 2)
handle_transfer_event_total_example =
    handle_transfer_event_total chain purchase purchase_receipt house 70 sent five_held refl
      (omega arith) (λ l. omega (arith, five_owned))

handle_transfer_event_replayed_example :
    (t : Store) × (handle_transfer_event chain purchase purchase_receipt house 70 sent false
        five_held
      ≡ ok (tt, t))
    × ((v q : ℕ)
        → let (sender, s1) = get_or_create_user_id 7 five_held in
          let receiver = (get_or_create_user_id 8 s1).0 in
          owned v q t.ownerships ≡ (
            if pair_beq (v, q) (receiver, 1)
            then 3
            else if pair_beq (v, q) (sender, 1)
            then 3
            else owned v q five_held.ownerships))
handle_transfer_event_replayed_example =
    handle_transfer_event_replayed chain purchase purchase_receipt house 70 sent five_held refl
      (omega arith) (omega arith) (omega arith) refl refl refl

abbrev refusing : Query
refusing attempt from to = err (record { retryable = true; splittable = false })

abbrev silent : Provider
silent address name = refusing

refusing-Refuses : Refuses refusing
refusing-Refuses attempt from to = (record { retryable = true; splittable = false }, refl, refl)

sync_once_lost_example :
    (o : Option ℕ) × (sync_once chain silent 12 10 empty_store
      ≡ (0, record empty_store { sync_state = o }))
    × (12 ≤ get_sync_state (record empty_store { sync_state = o }))
sync_once_lost_example =
    sync_once_lost chain silent 12 (λ a name. refusing-Refuses) 10 empty_store (inl unsynced)
