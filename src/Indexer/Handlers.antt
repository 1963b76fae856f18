-- ===== src/Indexer/Handlers.antt =====
-- The handlers of decoded events. Each runs inside the database transaction of its reconciliation:
-- an exception is an `err`, and its writes are given up with it.
use web3_real_estate.Base.{
  ℕ, ◌*◌, ◌^◌, none, some, Bool, ◌&&◌, ◌||◌, not, eqb, truthy, if◌then◌else◌, nat_eq, raise, Action,
  pure, ◌>>=◌, ◌>>◌, modify, run, or_raise,
}
use web3_real_estate.Base.Int.{pos, neg}
use web3_real_estate.Indexer.Rows.{
  Address, zero_address, PropertyRow, TransactionRow, Store, Failure, sender_mismatch, call_failed,
  TxType,
}
use web3_real_estate.Indexer.Chain.{Chain, Tx, Receipt, InvestmentEvent, TransferEvent}
use web3_real_estate.Indexer.Writes.{
  upsert_transaction, get_or_create_user_id, update_ownership, sync_ownership_to_chain,
  upsert_investment_row, build_gas_fields,
}

-- A call inside the database transaction.
abbrev pub Call : Type 0 → Type 0
Call A = Action Failure Store A

-- `TOKEN_DECIMALS` of backend/config/settings.py
abbrev pub token_decimals : ℕ
token_decimals = 18

-- `to_base_units` for a whole number of tokens
unfoldable pub to_base_units : ℕ → ℕ
to_base_units amount = amount * 10 ^ token_decimals

-- The row of `transactions` that a handler writes.
unfoldable pub transaction_row :
    Chain → Tx → Receipt → TxType → ℕ → ℕ → ℕ → Address → TransactionRow
transaction_row c tx receipt tx_type amount timestamp property_id wallet =
    let (gas_fee, amount_spent, remaining_balance) = build_gas_fields c tx receipt in
    record {
      tx_hash = tx.hash;
      tx_type = tx_type;
      amount = amount;
      timestamp = timestamp;
      property_id = property_id;
      block_number = receipt.block_number;
      wallet_address = wallet;
      gas_fee = gas_fee;
      amount_spent = amount_spent;
      remaining_balance = remaining_balance;
    }

module _ (c : Chain) (tx : Tx) (receipt : Receipt) (property_row : PropertyRow) where
  unfoldable pub credit_investor : Address → Address → ℕ → ℕ → Bool → Store → Store
  credit_investor token wallet user_id amount_base apply_delta s =
      if apply_delta
      then update_ownership user_id property_row.id (pos amount_base) s
      else sync_ownership_to_chain c token property_row.id wallet (some user_id) s

  -- `_handle_investment_event`
  unfoldable pub handle_investment_event : Address → InvestmentEvent → Bool → Call (Unit {0})
  handle_investment_event token event apply_delta =
      if not (eqb event.investor tx.from_address) then raise sender_mismatch else do
        timestamp ← or_raise (c.block_timestamp receipt.block_number) call_failed
        let amount_base = to_base_units event.token_amount
        user_id ← run (get_or_create_user_id event.investor)
        modify (credit_investor token event.investor user_id amount_base apply_delta)
        modify (
            upsert_investment_row property_row.id event.investor amount_base event.eth_spent tx.hash
              timestamp)
        modify (
            upsert_transaction (
              transaction_row c tx receipt TxType.investment_completed amount_base timestamp
                property_row.id event.investor))

  -- A transfer out of the token contract to somebody is a sale.
  unfoldable pub is_sale_transfer : Address → TransferEvent → Bool
  is_sale_transfer token event =
      eqb event.from_address token
      && not (eqb event.to_address zero_address)
      && not (eqb event.to_address token)

  unfoldable pub move_by_delta : Address → TransferEvent → Store → Store
  move_by_delta token event s =
      let s' =
        if not (eqb event.from_address zero_address) && not (is_sale_transfer token event)
        then (let (user_id, t) = get_or_create_user_id event.from_address s in
            update_ownership user_id property_row.id (neg event.value) t)
        else s in
      if not (eqb event.to_address zero_address) && not (eqb event.to_address token)
      then (let (user_id, t) = get_or_create_user_id event.to_address s' in
          update_ownership user_id property_row.id (pos event.value) t)
      else s'

  unfoldable pub move_by_chain : Address → TransferEvent → Store → Store
  move_by_chain token event s =
      let s' =
        if not (eqb event.from_address zero_address)
          && not (is_sale_transfer token event)
          && not (eqb event.from_address token)
        then sync_ownership_to_chain c token property_row.id event.from_address none s
        else s in
      if not (eqb event.to_address zero_address) && not (eqb event.to_address token)
      then sync_ownership_to_chain c token property_row.id event.to_address none s'
      else s'

  unfoldable pub transfer_type : Address → TransferEvent → TxType
  transfer_type token event =
      if is_sale_transfer token event && truthy tx.value
      then TxType.investment_completed
      else if eqb event.from_address zero_address
      then TxType.issue_tokens
      else TxType.transfer

  unfoldable pub move_tokens : Address → TransferEvent → Bool → Store → Store
  move_tokens token event apply_delta s =
      if apply_delta then move_by_delta token event s else move_by_chain token event s

  -- A sale that was paid for is an investment too.
  unfoldable pub record_sale : Address → TransferEvent → ℕ → Store → Store
  record_sale token event timestamp s =
      if is_sale_transfer token event && truthy tx.value
      then upsert_investment_row property_row.id event.to_address event.value tx.value tx.hash
          timestamp s
      else s

  -- `_handle_transfer_event`: a mint to the contract and an empty transfer are passed over.
  unfoldable pub handle_transfer_event : Address → TransferEvent → Bool → Call (Unit {0})
  handle_transfer_event token event apply_delta =
      if eqb event.from_address zero_address && eqb event.to_address token || eqb event.value 0
      then pure tt
      else do
        timestamp ← or_raise (c.block_timestamp receipt.block_number) call_failed
        modify (move_tokens token event apply_delta)
        modify (record_sale token event timestamp)
        modify (
            upsert_transaction (
              transaction_row c tx receipt (transfer_type token event) event.value timestamp
                property_row.id event.to_address))
