-- ===== src/Investments.antt =====
-- What the routes of backend/api/routers/investments.py share: the rows that await a deposit and the
-- answers. Amounts of tokens are in base units; wallets come as valid addresses.
use web3_real_estate.Base.{
  ℕ, ◌+◌, ◌-◌, ◌*◌, ◌/◌, ◌^◌, Bool, true, false, ◌&&◌, ◌||◌, not, leb, ltb, eqb, truthy,
  if◌then◌else◌, Option, none, some, get_or, is_some, List, [], ◌∷◌, nat_eq, Result, ok, err,
}
use web3_real_estate.Base.Keyed.{find}
use web3_real_estate.Base.Int.{pos}
use web3_real_estate.Indexer.Rows.{
  Address, TxHash, PropertyRow, OwnershipRow, InvestmentRow, TransactionRow, EventRow, WalletRow,
  Store, Failure,
}
use web3_real_estate.Indexer.Chain.{Chain, Tx, Receipt, InvestmentEvent, TransferEvent}
use web3_real_estate.Indexer.Writes.{get_or_create_user_id, upsert_investment_row, set_ownership}
use web3_real_estate.Indexer.Handlers.{to_base_units}
use web3_real_estate.Indexer.Reconcile.{Summary, reconcile_transaction, succeeded}
use web3_real_estate.Indexer.Payouts.{wallet_of}
use web3_real_estate.Funding.{
  Node, Offer, WalletFundingCheck, FundingError, read_sale_price_per_token_wei,
  check_investor_can_fund_investment,
}
use web3_real_estate.Yield.{Rpc, World}
use web3_real_estate.Yield.Backfill.{seen}
use web3_real_estate.Yield.Setup.{register_investor_for_property_yield, require_property_token}
use web3_real_estate.RentRoutes.{
  User, Role, HttpError, Site, is_owner, may_claim_role, enforce_self_or_property_owner,
  setup_status,
}
pub mod Orders
pub mod Recovery
pub mod Confirmation
pub mod Portfolio
pub mod Prepared
pub mod Conflict
pub mod Refreshed

-- A row of `investments` without a deposit_tx_hash.
pub record AwaitingRow : Type 0 where
  pub id : ℕ
  pub property_id : ℕ
  pub investor_wallet : Address
  pub token_amount_base : ℕ
  pub eth_amount_wei : ℕ
  pub created_at : ℕ

-- The tables and the contract, and the rows of `investments` that have no hash yet.
pub record Desk : Type 0 where
  pub world : World
  pub awaiting : List AwaitingRow

abbrev pub Answer : Type 0 → Type 0
Answer A = Result HttpError A × Desk

abbrev pub refuse : {A : Type 0} → HttpError → Desk → Answer A
refuse e d = (err e, d)

abbrev pub guard : {A : Type 0} → Bool → HttpError → Desk → Answer A → Answer A
guard true e d next = next
guard false e d next = (err e, d)
