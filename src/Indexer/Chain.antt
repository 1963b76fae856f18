-- ===== src/Indexer/Chain.antt =====
-- What the indexer reads from an Ethereum node: transactions, receipts with their decoded events,
-- and calls of the contracts. A call that raises an exception answers `none`.
use web3_real_estate.Base.{ℕ, Option, List, Bool}
use web3_real_estate.Indexer.Rows.{Address, TxHash}

-- `web3.eth.get_transaction`
pub record Tx : Type 0 where
  pub hash : TxHash
  pub from_address : Address
  pub to_address : Option Address
  pub value : ℕ
  pub gas_price : ℕ

pub record InvestmentEvent : Type 0 where
  pub log_index : ℕ
  pub address : Address
  pub investor : Address
  pub token_amount : ℕ
  pub eth_spent : ℕ

pub record TransferEvent : Type 0 where
  pub log_index : ℕ
  pub address : Address
  pub from_address : Address
  pub to_address : Address
  pub value : ℕ

pub record RentPaidEvent : Type 0 where
  pub log_index : ℕ
  pub address : Address
  pub property_id : ℕ
  pub tenant : Address
  pub amount : ℕ

pub record InvestorPaidEvent : Type 0 where
  pub log_index : ℕ
  pub address : Address
  pub property_id : Option ℕ
  pub investor : Address
  pub amount : ℕ
  pub ownership_bps : ℕ

pub record RentDistributedEvent : Type 0 where
  pub log_index : ℕ
  pub address : Address
  pub property_id : Option ℕ
  pub total_amount : Option ℕ
  pub investor_count : Option ℕ

pub record RewardsClaimedEvent : Type 0 where
  pub log_index : ℕ
  pub address : Address
  pub property_id : ℕ
  pub investor : Address
  pub amount : ℕ

-- `web3.eth.get_transaction_receipt`, with what `decode_contract_events_from_receipt` finds in it
pub record Receipt : Type 0 where
  pub status : ℕ
  pub block_number : ℕ
  pub gas_used : ℕ
  pub effective_gas_price : ℕ
  pub investment_events : List InvestmentEvent
  pub transfer_events : List TransferEvent
  pub rent_paid_events : List RentPaidEvent
  pub investor_paid_events : List InvestorPaidEvent
  pub rent_distributed_events : List RentDistributedEvent
  pub rewards_claimed_events : List RewardsClaimedEvent

-- One entry of the three arrays that `calculateDistribution` returns.
pub record ChainShare : Type 0 where
  pub investor : Address
  pub payout : ℕ
  pub bps : ℕ

pub record Chain : Type 0 where
  pub get_transaction : TxHash → Option Tx
  pub get_receipt : TxHash → Option Receipt
  pub block_timestamp : ℕ → Option ℕ
  -- `eth.get_balance`
  pub native_balance : Address → Option ℕ
  -- `SecurityToken.balanceOf` and `totalSupply`
  pub balance_of : Address → Address → Option ℕ
  pub total_supply : Address → Option ℕ
  pub is_contract : Address → Bool
  -- `get_rent_distribution_address`
  pub rent_distribution_address : Option Address
  -- the token of `RentDistribution.properties(id)`
  pub registered_token : ℕ → Option Address
  -- `RentDistribution.calculateDistribution(id, rent)`
  pub calculate_distribution : ℕ → ℕ → Option (List ChainShare)
