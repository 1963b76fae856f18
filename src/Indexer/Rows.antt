-- ===== src/Indexer/Rows.antt =====
-- The tables that the indexer writes (backend/db/schema.py), as rows of the columns that it reads
-- or writes. Addresses and hashes are the numbers that their hexadecimal text stands for, so the
-- comparisons by LOWER(...) are equations; a time is the number of seconds since 1970.
use web3_real_estate.Base.{ℕ, Option, List, Bool}

abbrev pub Address : Type 0
Address = ℕ

abbrev pub TxHash : Type 0
TxHash = ℕ

-- `ZERO_ADDRESS`
abbrev pub zero_address : Address
zero_address = 0

-- The Solidity event names, `event["event"]`.
pub data EventName : Type 0 where
  investment_completed transfer rent_paid investor_paid rent_distributed rewards_claimed : EventName

-- `transactions.type`
pub data TxType : Type 0 where
  investment_completed issue_tokens transfer rent_paid rewards_claimed other : TxType

pub record PropertyRow : Type 0 where
  pub id : ℕ
  pub token_address : Option Address
  pub monthly_rent_wei : Option ℕ

-- `blockchain_event_log`, unique by (tx_hash, log_index)
pub record EventRow : Type 0 where
  pub tx_hash : TxHash
  pub log_index : ℕ
  pub block_number : ℕ
  pub contract_address : Address
  pub event_name : EventName

-- `transactions`, unique by tx_hash
pub record TransactionRow : Type 0 where
  pub tx_hash : TxHash
  pub tx_type : TxType
  pub amount : ℕ
  pub timestamp : ℕ
  pub property_id : ℕ
  pub block_number : ℕ
  pub wallet_address : Address
  pub gas_fee : Option ℕ
  pub amount_spent : Option ℕ
  pub remaining_balance : Option ℕ

-- `users` and `tenants`, unique by wallet_address
pub record WalletRow : Type 0 where
  pub id : ℕ
  pub wallet_address : Address

-- `token_ownerships`, unique by (user_id, property_id)
pub record OwnershipRow : Type 0 where
  pub user_id : ℕ
  pub property_id : ℕ
  pub token_amount : ℕ

-- `investments` with a deposit_tx_hash, by which they are unique; the indexer's status is 'funded'.
pub record InvestmentRow : Type 0 where
  pub id : ℕ
  pub property_id : ℕ
  pub investor_wallet : Address
  pub token_amount_base : ℕ
  pub eth_amount_wei : ℕ
  pub deposit_tx_hash : TxHash
  pub funded : Bool
  pub created_at : ℕ

-- `rent_payments`, unique by tx_hash, and by the cycle among the confirmed ones
pub record RentPaymentRow : Type 0 where
  pub id : ℕ
  pub tenant_id : ℕ
  pub property_id : ℕ
  pub amount_wei : ℕ
  pub tx_hash : TxHash
  pub block_number : ℕ
  pub payment_date : ℕ
  pub confirmed : Bool
  pub rent_month : ℕ
  pub rent_year : ℕ

-- `tenant_rentals`; `active` is status = 'active'
pub record RentalRow : Type 0 where
  pub tenant_id : ℕ
  pub property_id : ℕ
  pub rental_start_date : ℕ
  pub monthly_rent : ℕ
  pub active : Bool

-- `rent_distributions`, unique by distribution_tx_hash
pub record DistributionRow : Type 0 where
  pub id : ℕ
  pub property_id : ℕ
  pub rent_payment_id : ℕ
  pub total_rent_collected : ℕ
  pub total_distributed : ℕ
  pub investor_count : ℕ
  pub distribution_tx_hash : TxHash
  pub distributed_at : ℕ

-- The exact fraction behind `ownership_percentage`, before it is rounded for its column.
pub record Percentage : Type 0 where
  pub numerator : ℕ
  pub denominator : ℕ

-- `claim_status` with `claim_tx_hash` and `claimed_at`
pub data ClaimStatus : Type 0 where
  claimable : ClaimStatus
  claimed : TxHash → ℕ → ClaimStatus

-- `investor_rent_payouts`, unique by (distribution_id, investor_wallet)
pub record PayoutRow : Type 0 where
  pub distribution_id : ℕ
  pub investor_wallet : Address
  pub property_id : ℕ
  pub ownership_percentage : Percentage
  pub payout_amount_wei : ℕ
  pub tx_hash : TxHash
  pub distributed_at : ℕ
  pub claim : ClaimStatus

pub record Store : Type 0 where
  pub properties : List PropertyRow
  pub events : List EventRow
  pub transactions : List TransactionRow
  pub users : List WalletRow
  pub tenants : List WalletRow
  pub ownerships : List OwnershipRow
  pub investments : List InvestmentRow
  pub rent_payments : List RentPaymentRow
  pub rentals : List RentalRow
  pub distributions : List DistributionRow
  pub payouts : List PayoutRow
  -- `blockchain_sync_state.last_block` of the row for `INDEXER_NAME`
  pub sync_state : Option ℕ
  -- the next value of each `id SERIAL`
  pub next_user : ℕ
  pub next_tenant : ℕ
  pub next_investment : ℕ
  pub next_payment : ℕ
  pub next_distribution : ℕ

-- What makes the database transaction of a reconciliation roll back.
pub data Failure : Type 0 where
  sender_mismatch : Failure
  reverted_or_missing : Failure
  call_failed : Failure
  unique_violation : Failure
  row_missing : Failure

-- Keys of the unique constraints.
abbrev pub event_key : EventRow → ℕ × ℕ
event_key r = (r.tx_hash, r.log_index)

abbrev pub ownership_key : OwnershipRow → ℕ × ℕ
ownership_key r = (r.user_id, r.property_id)

abbrev pub payout_key : PayoutRow → ℕ × ℕ
payout_key r = (r.distribution_id, r.investor_wallet)
