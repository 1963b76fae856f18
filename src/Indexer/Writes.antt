-- ===== src/Indexer/Writes.antt =====
-- The writes of single rows: `_record_event` to `_build_gas_fields`.
use web3_real_estate.Base.{
  ℕ, zero, suc, ◌+◌, ◌*◌, Option, none, some, Bool, true, false, truthy, if◌then◌else◌, nat_eq,
  pair_eq,
}
use web3_real_estate.Base.Int.{ℤ, add_clamped}
use web3_real_estate.Base.Keyed.{find, upsert}
use web3_real_estate.Indexer.Rows.{
  Address, TxHash, EventName, EventRow, TransactionRow, WalletRow, OwnershipRow, InvestmentRow,
  Store, event_key, ownership_key,
}
use web3_real_estate.Indexer.Chain.{Chain, Tx, Receipt}

-- The answer is whether the event is new; a known event leaves the log alone.
unfoldable pub record_event : TxHash → ℕ → ℕ → Address → EventName → Store → Bool × Store
record_event tx_hash log_index block_number contract_address event_name s =
    elim (find event_key (tx_hash, log_index) s.events) [
      | some _ ↦ (false, s)
      | none ↦
          let row : EventRow = record {
            tx_hash = tx_hash;
            log_index = log_index;
            block_number = block_number;
            contract_address = contract_address;
            event_name = event_name;
          } in
          (true, record s { events = upsert event_key (λ old. old) row s.events })
    ]

-- On a conflict every column but the hash takes the new value.
unfoldable pub upsert_transaction : TransactionRow → Store → Store
upsert_transaction row s = record s {
  transactions =
      upsert (λ (r : TransactionRow). r.tx_hash) (λ old. record row { tx_hash = old.tx_hash }) row
        s.transactions;
}

unfoldable pub get_or_create_user_id : Address → Store → ℕ × Store
get_or_create_user_id wallet s = elim (find (λ (r : WalletRow). r.wallet_address) wallet s.users) [
  | some row ↦ (row.id, s)
  | none ↦
      let row : WalletRow = record { id = s.next_user; wallet_address = wallet } in
      (
        s.next_user,
        record s {
          users = upsert (λ (r : WalletRow). r.wallet_address) (λ old. old) row s.users;
          next_user = s.next_user + 1;
        },
      )
]

unfoldable pub get_or_create_tenant_id : Address → Store → ℕ × Store
get_or_create_tenant_id wallet s =
    elim (find (λ (r : WalletRow). r.wallet_address) wallet s.tenants) [
      | some row ↦ (row.id, s)
      | none ↦
          let row : WalletRow = record { id = s.next_tenant; wallet_address = wallet } in
          (
            s.next_tenant,
            record s {
              tenants = upsert (λ (r : WalletRow). r.wallet_address) (λ old. old) row s.tenants;
              next_tenant = s.next_tenant + 1;
            },
          )
    ]

-- `GREATEST(delta, 0)` on an insert, `GREATEST(token_amount + delta, 0)` on a conflict.
unfoldable pub update_ownership : ℕ → ℕ → ℤ → Store → Store
update_ownership user_id property_id delta s =
    let row : OwnershipRow = record {
      user_id = user_id;
      property_id = property_id;
      token_amount = add_clamped 0 delta;
    } in
    record s {
      ownerships =
          upsert ownership_key
            (λ old. record old { token_amount = add_clamped old.token_amount delta }) row
            s.ownerships;
    }

unfoldable pub set_ownership : ℕ → ℕ → ℕ → Store → Store
set_ownership user_id property_id balance s =
    let row : OwnershipRow = record {
      user_id = user_id;
      property_id = property_id;
      token_amount = balance;
    } in
    record s {
      ownerships =
          upsert ownership_key (λ old. record old { token_amount = balance }) row s.ownerships;
    }

-- A `balanceOf` that raises leaves the store alone; no user is created for it either.
unfoldable pub sync_ownership_to_chain : Chain → Address → ℕ → Address → Option ℕ → Store → Store
sync_ownership_to_chain c token property_id wallet user_id s = elim (c.balance_of token wallet) [
  | none ↦ s
  | some balance ↦ elim user_id [
    | some user ↦ set_ownership user property_id balance s
    | none ↦
        let (user, s') = get_or_create_user_id wallet s in set_ownership user property_id balance s'
  ]
]

-- On a conflict the creation time stays.
unfoldable pub upsert_investment_row : ℕ → Address → ℕ → ℕ → TxHash → ℕ → Store → Store
upsert_investment_row property_id wallet token_amount_base eth_amount_wei tx_hash timestamp s =
    let row : InvestmentRow = record {
      id = s.next_investment;
      property_id = property_id;
      investor_wallet = wallet;
      token_amount_base = token_amount_base;
      eth_amount_wei = eth_amount_wei;
      deposit_tx_hash = tx_hash;
      funded = true;
      created_at = timestamp;
    } in
    record s {
      investments =
          upsert (λ (r : InvestmentRow). r.deposit_tx_hash)
            (λ old. record row {
              id = old.id;
              deposit_tx_hash = old.deposit_tx_hash;
              created_at = old.created_at;
            })
            row s.investments;
      next_investment = s.next_investment + 1;
    }

unfoldable pub non_zero : ℕ → Option ℕ
non_zero zero = none
non_zero (suc n) = some (suc n)

-- The gas fee, the value sent, and the balance left; a fee or value of zero is stored as NULL.
unfoldable pub build_gas_fields : Chain → Tx → Receipt → Option ℕ × Option ℕ × Option ℕ
build_gas_fields c tx receipt =
    let price =
      if truthy receipt.effective_gas_price then receipt.effective_gas_price else tx.gas_price in
    (non_zero (receipt.gas_used * price), non_zero tx.value, c.native_balance tx.from_address)
