-- ===== src/Investments/Recovery.antt =====
-- What a receipt tells of an investment: `recover_investment_from_receipt` of
-- backend/api/_helpers.py, and what a complete reconciliation has left.
use web3_real_estate.Base.{
  ℕ, ◌+◌, Bool, true, false, ◌&&◌, ◌||◌, eqb, truthy, if◌then◌else◌, Option, none, some, get_or,
  is_some, List, [], ◌∷◌, nat_eq,
}
use web3_real_estate.Base.Keyed.{find}
use web3_real_estate.Indexer.Rows.{
  Address, TxHash, PropertyRow, OwnershipRow, InvestmentRow, TransactionRow, EventRow, WalletRow,
  Store,
}
use web3_real_estate.Indexer.Chain.{Chain, Tx, Receipt, TransferEvent}
use web3_real_estate.Indexer.Writes.{upsert_investment_row}
use web3_real_estate.Indexer.Handlers.{to_base_units}
use web3_real_estate.Indexer.Reconcile.{succeeded}
use web3_real_estate.Indexer.Payouts.{wallet_of}

-- The amount of the first sale to the investor
unfoldable pub sold_to : Address → Address → List TransferEvent → Option ℕ
sold_to token wallet [] = none
sold_to token wallet (e ∷ es) =
    if eqb e.from_address token && eqb e.to_address wallet
    then some e.value
    else sold_to token wallet es

unfoldable pub has_token : Address → PropertyRow → Bool
has_token token row = elim row.token_address [ none ↦ false | some t ↦ eqb t token ]

unfoldable pub property_with_token : Address → List PropertyRow → Option PropertyRow
property_with_token token [] = none
property_with_token token (r ∷ rs) =
    if has_token token r then some r else property_with_token token rs

unfoldable pub non_zero_or : ℕ → ℕ → ℕ
non_zero_or n d = if eqb n 0 then d else n

-- The wallet, the amount and the price that a receipt tells of.
unfoldable pub receipt_investment : Tx → Receipt → Address → Option (Address × ℕ × ℕ)
receipt_investment tx receipt token = elim receipt.investment_events [
  | e ∷ _ ↦ some (e.investor, to_base_units e.token_amount, non_zero_or e.eth_spent tx.value)
  | [] ↦ elim (sold_to token tx.from_address receipt.transfer_events) [
    | none ↦ none
    | some amount ↦ some (tx.from_address, amount, tx.value)
  ]
]

-- `recover_investment_from_receipt`; none where the node has no answer.
unfoldable pub recover_investment_from_receipt : Chain → TxHash → ℕ → Store → Bool × Store
recover_investment_from_receipt c tx_hash now s = elim (c.get_transaction tx_hash) [
  | none ↦ (false, s)
  | some tx ↦ elim (c.get_receipt tx_hash) [
    | none ↦ (false, s)
    | some receipt ↦ elim tx.to_address [
      | none ↦ (false, s)
      | some token ↦ elim (property_with_token token s.properties) [
        | none ↦ (false, s)
        | some row ↦ elim (receipt_investment tx receipt token) [
          | none ↦ (false, s)
          | some (wallet, amount, price) ↦
              if succeeded receipt && truthy amount
              then (true, upsert_investment_row row.id wallet amount price tx_hash now s)
              else (false, s)
        ]
      ]
    ]
  ]
]

unfoldable pub holding : ℕ → Address → List WalletRow → List OwnershipRow → ℕ
holding p wallet users [] = 0
holding p wallet users (r ∷ rs) =
    (if eqb r.property_id p
        && (is_some (wallet_of r.user_id users)
            && eqb (get_or (wallet_of r.user_id users) 0) wallet)
      then r.token_amount
      else 0)
    + holding p wallet users rs

unfoldable pub has_events : TxHash → List EventRow → Bool
has_events tx_hash [] = false
has_events tx_hash (e ∷ es) = eqb e.tx_hash tx_hash || has_events tx_hash es

-- Nothing of the purchase may be missing.
unfoldable pub is_complete : TxHash → InvestmentRow → Store → Bool
is_complete tx_hash row s =
    truthy (holding row.property_id row.investor_wallet s.users s.ownerships)
    && (is_some (find (λ (r : TransactionRow). r.tx_hash) tx_hash s.transactions)
        && has_events tx_hash s.events)
