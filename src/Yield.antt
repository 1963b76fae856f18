-- ===== src/Yield.antt =====
-- The database and the rent contract as one world, and the calls of backend/services/blockchain.py
-- with which backend/api/_helpers.py reads and changes the contract. A call answers none where it
-- raises; what was written and sent until then stays.
use web3_real_estate.Base.{
  ℕ, ◌+◌, ◌-◌, ◌*◌, ◌/◌, Bool, true, false, ◌&&◌, ◌||◌, not, leb, ltb, eqb, truthy, if◌then◌else◌,
  Option, none, some, get_or, List, [], ◌∷◌, ◌++◌, nat_eq, pair_eq,
}
use web3_real_estate.Base.Keyed.{find}
use web3_real_estate.Base.Ledger.{amount_of}
use web3_real_estate.Indexer.Rows.{
  Address, TxHash, OwnershipRow, WalletRow, DistributionRow, PayoutRow, ClaimStatus, claimable,
  claimed, Store, payout_key,
}
use web3_real_estate.Indexer.Chain.{Chain}
use web3_real_estate.Indexer.Payouts.{
  Share, wallet_of, erc20_balance, token_of, get_rent_distribution_breakdown, insert_payout,
  backfill_investor_payout_rows_for_distribution,
}
use web3_real_estate.RentContract
use web3_real_estate.RentContract.{Contract, PropertyInfo}
pub mod Backfill
pub mod Investors
pub mod Payouts
pub mod Accruals
pub mod Frame
pub mod Again
pub mod TopUp
pub mod Setup
pub mod Ready

-- The node and the deployed contract, for the calls about one property: whether reads and
-- transactions get through, and whether the contract has `accrueInvestorRewards`.
pub record Rpc : Type 0 where
  pub reads : ℕ → Bool
  pub sends : ℕ → Bool
  pub supports_accrue : Bool

-- The database and the contract.
pub record World : Type 0 where
  pub store : Store
  pub contract : Contract

abbrev pub is_active : Option PropertyInfo → Bool
is_active none = false
is_active (some info) = info.active

module _ (rpc : Rpc) where
  unfoldable pub get_rent_property_info : ℕ → World → Option PropertyInfo
  get_rent_property_info p w = if rpc.reads p then some (w.contract.properties p) else none

  unfoldable pub get_rent_investors : ℕ → World → Option (List Address)
  get_rent_investors p w = if rpc.reads p then some (w.contract.investors p) else none

  unfoldable pub get_property_claimable_rewards : ℕ → Address → World → Option ℕ
  get_property_claimable_rewards p wallet w =
      if rpc.reads p
      then some (amount_of (p, wallet) w.contract.property_claimable_rewards)
      else none

  -- A transaction of the deployer, who owns the contract; none where it reverts or is not sent.
  unfoldable pub send : ℕ → (Contract → Option Contract) → World → Option World
  send p call w =
      if rpc.sends p
      then elim (call w.contract) [ none ↦ none | some s ↦ some (record w { contract = s }) ]
      else none

  unfoldable pub add_investors_to_rent : ℕ → List Address → World → Option World
  add_investors_to_rent p ws w = send p (RentContract.add_investors p ws) w

  -- `accrue_investor_rewards` of the services
  unfoldable pub accrue_investor_rewards : ℕ → Address → ℕ → World → Option World
  accrue_investor_rewards p wallet amount w =
      if eqb amount 0
      then some w
      else if rpc.supports_accrue
      then send p (RentContract.accrue_investor_rewards p wallet amount) w
      else some w
