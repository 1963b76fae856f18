-- ===== src/Indexer/Reconcile.antt =====
-- `reconcile_transaction`: the events of one transaction, handled in one database transaction.
use web3_real_estate.Base.{
  ℕ, ◌+◌, Option, none, some, List, [], ◌∷◌, Bool, ◌&&◌, eqb, get_or, if◌then◌else◌, nat_eq, Result,
  ok, err, pure, ◌>>=◌, ◌>>◌, is_some,
}
use web3_real_estate.Base.Keyed.{find}
use web3_real_estate.Indexer.Rows.{
  Address, TxHash, zero_address, EventName, PropertyRow, InvestmentRow, Store, Failure,
  reverted_or_missing,
}
use web3_real_estate.Indexer.Chain.{
  Chain, Tx, Receipt, InvestmentEvent, TransferEvent, RentPaidEvent, InvestorPaidEvent,
  RentDistributedEvent, RewardsClaimedEvent,
}
use web3_real_estate.Indexer.Writes.{record_event}
use web3_real_estate.Indexer.Handlers.{Call, handle_investment_event, handle_transfer_event}
use web3_real_estate.Indexer.RentHandlers.{
  RentSummary, ClaimSummary, handle_rent_events, handle_reward_claim_event,
}

-- What `reconcile_transaction` returns. `rent` and `claim` are the entries that the two rent
-- handlers add.
pub record Summary : Type 0 where
  pub tx_hash : TxHash
  pub block_number : ℕ
  pub events_recorded : ℕ
  pub events_already_recorded : ℕ
  pub investment_id : Option ℕ
  pub rent : Option RentSummary
  pub claim : Option ClaimSummary

unfoldable pub tally : Bool → Summary → Summary
tally recorded sum =
    if recorded
    then record sum { events_recorded = sum.events_recorded + 1 }
    else record sum { events_already_recorded = sum.events_already_recorded + 1 }

-- The properties with a token; a property's address is unique, and so is its id.
unfoldable pub property_by_token : Address → List PropertyRow → Option PropertyRow
property_by_token token [] = none
property_by_token token (row ∷ rows) = elim row.token_address [
  | none ↦ property_by_token token rows
  | some a ↦ if eqb a token then some row else property_by_token token rows
]

unfoldable pub property_by_id : ℕ → List PropertyRow → Option PropertyRow
property_by_id id [] = none
property_by_id id (row ∷ rows) =
    if eqb row.id id && is_some row.token_address then some row else property_by_id id rows

-- `_resolve_property_row_for_chain_property_id`: by the id, else by the registered token.
unfoldable pub resolve_property : Chain → ℕ → List PropertyRow → Option PropertyRow
resolve_property c id rows = elim (property_by_id id rows) [
  | some row ↦ some row
  | none ↦ elim (c.registered_token id) [
    | none ↦ none
    | some token ↦ if eqb token zero_address then none else property_by_token token rows
  ]
]

module _ (c : Chain) (tx : Tx) (receipt : Receipt) where
  -- The log entry of one event, counted in the summary.
  unfoldable pub record_counted : ℕ → Address → EventName → Summary → Call (Bool × Summary)
  record_counted log_index address name sum s =
      let (recorded, s') = record_event tx.hash log_index receipt.block_number address name s in
      ok ((recorded, tally recorded sum), s')

  unfoldable pub investments_loop :
      PropertyRow → Address → List InvestmentEvent → Summary → Call Summary
  investments_loop row token [] sum = pure sum
  investments_loop row token (e ∷ es) sum = do
    counted ← record_counted e.log_index e.address EventName.investment_completed sum
    handle_investment_event c tx receipt row token e counted.0
    investments_loop row token es counted.1

  -- Beside investment events the transfers are only logged.
  unfoldable pub log_transfers : List TransferEvent → Summary → Call Summary
  log_transfers [] sum = pure sum
  log_transfers (e ∷ es) sum = do
    counted ← record_counted e.log_index e.address EventName.transfer sum
    log_transfers es counted.1

  unfoldable pub transfers_loop :
      PropertyRow → Address → List TransferEvent → Summary → Call Summary
  transfers_loop row token [] sum = pure sum
  transfers_loop row token (e ∷ es) sum = do
    counted ← record_counted e.log_index e.address EventName.transfer sum
    handle_transfer_event c tx receipt row token e counted.0
    transfers_loop row token es counted.1

  unfoldable pub read_investment_id : Summary → Call Summary
  read_investment_id sum s =
      elim (find (λ (r : InvestmentRow). r.deposit_tx_hash) tx.hash s.investments) [
        | none ↦ ok (sum, s)
        | some row ↦ ok (record sum { investment_id = some row.id }, s)
      ]

  unfoldable pub token_branch :
      PropertyRow → Address → List InvestmentEvent → Summary → Call Summary
  token_branch row token [] sum = transfers_loop row token receipt.transfer_events sum
  token_branch row token (e ∷ es) sum = do
    sum₁ ← investments_loop row token (e ∷ es) sum
    sum₂ ← log_transfers receipt.transfer_events sum₁
    read_investment_id sum₂

  -- The SecurityToken events, if the transaction was sent to a property's token.
  unfoldable pub token_events : Summary → Call Summary
  token_events sum s = elim tx.to_address [
    | none ↦ ok (sum, s)
    | some token ↦ elim (property_by_token token s.properties) [
      | none ↦ ok (sum, s)
      | some row ↦ token_branch row token receipt.investment_events sum s
    ]
  ]

  unfoldable pub same_property : ℕ → Option ℕ → Bool
  same_property id other = eqb (get_or other id) id

  unfoldable pub matching_paid : ℕ → List InvestorPaidEvent → List InvestorPaidEvent
  matching_paid id [] = []
  matching_paid id (e ∷ es) =
      let rest = matching_paid id es in if same_property id e.property_id then e ∷ rest else rest

  unfoldable pub matching_distributed : ℕ → List RentDistributedEvent → List RentDistributedEvent
  matching_distributed id [] = []
  matching_distributed id (e ∷ es) =
      let rest = matching_distributed id es in
      if same_property id e.property_id then e ∷ rest else rest

  -- The first RentPaid event, if its property is known.
  unfoldable pub rent_paid_step : List RentPaidEvent → Summary → Call Summary
  rent_paid_step [] sum s = ok (sum, s)
  rent_paid_step (e ∷ _) sum s = elim (resolve_property c e.property_id s.properties) [
    | none ↦ ok (sum, s)
    | some row ↦
        (do
          counted ← record_counted e.log_index e.address EventName.rent_paid sum
          rent ←
              handle_rent_events c tx receipt row e
                (matching_paid e.property_id receipt.investor_paid_events)
                (matching_distributed e.property_id receipt.rent_distributed_events)
          pure (record (counted.1) { rent = some rent }))
          s
  ]

  unfoldable pub log_investor_paid : List InvestorPaidEvent → Summary → Call Summary
  log_investor_paid [] sum = pure sum
  log_investor_paid (e ∷ es) sum = do
    counted ← record_counted e.log_index e.address EventName.investor_paid sum
    log_investor_paid es counted.1

  unfoldable pub log_rent_distributed : List RentDistributedEvent → Summary → Call Summary
  log_rent_distributed [] sum = pure sum
  log_rent_distributed (e ∷ es) sum = do
    counted ← record_counted e.log_index e.address EventName.rent_distributed sum
    log_rent_distributed es counted.1

  -- One round of the loop over the RewardsClaimed events; an unknown property is skipped.
  unfoldable pub claim_step : RewardsClaimedEvent → Summary → Call Summary
  claim_step e sum s = elim (resolve_property c e.property_id s.properties) [
    | none ↦ ok (sum, s)
    | some row ↦
        (do
          counted ← record_counted e.log_index e.address EventName.rewards_claimed sum
          claim ← handle_reward_claim_event c tx receipt row e
          pure (record (counted.1) { claim = some claim }))
          s
  ]

  unfoldable pub claims_loop : List RewardsClaimedEvent → Summary → Call Summary
  claims_loop [] sum = pure sum
  claims_loop (e ∷ es) sum = do sum' ← claim_step e sum; claims_loop es sum'

  unfoldable pub rent_branch : Summary → Call Summary
  rent_branch sum = do
    sum₁ ← rent_paid_step receipt.rent_paid_events sum
    sum₂ ← log_investor_paid receipt.investor_paid_events sum₁
    sum₃ ← log_rent_distributed receipt.rent_distributed_events sum₂
    claims_loop receipt.rewards_claimed_events sum₃

  -- The RentDistribution events, if the transaction was sent to that contract.
  unfoldable pub rent_events : Summary → Call Summary
  rent_events sum s = elim c.rent_distribution_address [
    | none ↦ ok (sum, s)
    | some address ↦
        (if eqb (get_or tx.to_address zero_address) address && is_some tx.to_address
            then rent_branch sum
            else pure sum)
          s
  ]

  abbrev pub empty_summary : Summary
  empty_summary = record {
    tx_hash = tx.hash;
    block_number = receipt.block_number;
    events_recorded = 0;
    events_already_recorded = 0;
    investment_id = none;
    rent = none;
    claim = none;
  }

  -- The body of the `try`, up to `db.commit()`.
  unfoldable pub reconcile_body : Call Summary
  reconcile_body = do sum ← token_events empty_summary; rent_events sum

-- The commit, or the rollback and the exception.
abbrev pub settle : {A : Type 0} → Store → Result Failure (A × Store) → Result Failure A × Store
settle s (ok (a, s')) = (ok a, s')
settle s (err e) = (err e, s)

unfoldable pub succeeded : Receipt → Bool
succeeded receipt = eqb receipt.status 1

-- The result, or the exception, and the database after it.
unfoldable pub reconcile_transaction : Chain → TxHash → Store → Result Failure Summary × Store
reconcile_transaction c tx_hash s = elim (c.get_transaction tx_hash) [
  | none ↦ (err reverted_or_missing, s)
  | some tx ↦ elim (c.get_receipt tx_hash) [
    | none ↦ (err reverted_or_missing, s)
    | some receipt ↦
        if succeeded receipt
        then settle s (reconcile_body c tx receipt s)
        else (err reverted_or_missing, s)
  ]
]
