-- ===== src/Yield/Payouts.antt =====
-- What an investor can claim after a payment: `reconcile_investor_claimable_on_chain`,
-- `finalize_investor_rent_yield_after_payment` and `ensure_investor_yield_after_rent_payment` of
-- backend/api/_helpers.py.
use web3_real_estate.Base.{
  ℕ, ◌+◌, ◌-◌, ◌&&◌, ◌||◌, leb, eqb, truthy, if◌then◌else◌, Option, none, some, get_or, List, [],
  ◌∷◌, nat_eq, pair_eq,
}
use web3_real_estate.Indexer.Rows.{Address, TxHash, PayoutRow, claimable, claimed}
use web3_real_estate.Indexer.Chain.{Chain}
use web3_real_estate.Indexer.Payouts.{Share, backfill_investor_payout_rows_for_distribution}
use web3_real_estate.Yield.{
  Rpc, World, is_active, get_rent_property_info, get_property_claimable_rewards,
  accrue_investor_rewards,
}
use web3_real_estate.Yield.Backfill.{mem, seen, breakdown, backfill_missed_rent_accruals}
use web3_real_estate.Yield.Investors.{sync_investors_to_contract}

-- `SUM(payout_amount_wei)` over the claimable rows of a wallet for a property
unfoldable pub pending : ℕ → Address → List PayoutRow → ℕ
pending p wallet [] = 0
pending p wallet (r ∷ rs) =
    (if eqb r.property_id p && eqb r.investor_wallet wallet
      then elim r.claim [ claimable ↦ r.payout_amount_wei | claimed _ _ ↦ 0 ]
      else 0)
    + pending p wallet rs

module _ (rpc : Rpc) where
  -- The accrual at the end of `reconcile_investor_claimable_on_chain`
  unfoldable pub top_up : ℕ → Address → ℕ → ℕ → World → Option ℕ × World
  top_up p wallet db_pending chain_pending w =
      if leb db_pending chain_pending
      then (some 0, w)
      else elim (accrue_investor_rewards rpc p wallet (db_pending - chain_pending) w) [
        | none ↦ (none, w)
        | some w' ↦ (some (db_pending - chain_pending), w')
      ]

  -- The last loop of `finalize_investor_rent_yield_after_payment`; a failure is logged.
  unfoldable pub accrue_unpaid : ℕ → List Address → List Share → World → World
  accrue_unpaid p paid [] w = w
  accrue_unpaid p paid (x ∷ xs) w = accrue_unpaid p paid xs (
      if eqb x.payout_wei 0 || mem x.investor paid
      then w
      else get_or (accrue_investor_rewards rpc p x.investor x.payout_wei w) w)

module _ (c : Chain) (rpc : Rpc) where
  unfoldable pub reconcile_investor_claimable_on_chain : ℕ → Address → World → Option ℕ × World
  reconcile_investor_claimable_on_chain p wallet w =
      let db_pending = pending p wallet w.store.payouts in
      if truthy db_pending && (rpc.supports_accrue && is_active (get_rent_property_info rpc p w))
      then (let (synced, w') = sync_investors_to_contract c rpc p w in
          elim synced as (λ _. Option ℕ × World) [
            | none ↦ (some 0, w')
            | some _ ↦
                elim (get_property_claimable_rewards rpc p wallet w') as (λ _. Option ℕ × World) [
                  | none ↦ (some 0, w')
                  | some chain_pending ↦ top_up rpc p wallet db_pending chain_pending w'
                ]
          ])
      else (some 0, w)

  -- The rows written, and the world; `paid` are the wallets of the InvestorPaid events.
  unfoldable pub finalize_investor_rent_yield_after_payment :
      ℕ → ℕ → ℕ → TxHash → ℕ → List Address → World → ℕ × World
  finalize_investor_rent_yield_after_payment p distribution_id rent tx_hash distributed_at paid w =
      if eqb rent 0 || eqb distribution_id 0
      then (0, w)
      else (let w' = (sync_investors_to_contract c rpc p w).1 in
          let (rows, s) =
            backfill_investor_payout_rows_for_distribution (seen c rpc w'.contract) p
              distribution_id rent tx_hash distributed_at w'.store in
          let w'' : World = record w' { store = s } in
          (
            rows,
            if rpc.supports_accrue
                then accrue_unpaid rpc p paid (breakdown c rpc p rent w'') w''
                else w'',
          ))

  -- `ensure_investor_yield_after_rent_payment`
  unfoldable pub ensure_investor_yield_after_rent_payment : ℕ → ℕ → ℕ → TxHash → ℕ → World → World
  ensure_investor_yield_after_rent_payment p distribution_id rent tx_hash distributed_at w =
      if eqb rent 0 || eqb distribution_id 0
      then w
      else (let w' = (sync_investors_to_contract c rpc p w).1 in
          let s =
            (backfill_investor_payout_rows_for_distribution (seen c rpc w'.contract) p
              distribution_id rent tx_hash distributed_at w'.store).1 in
          (backfill_missed_rent_accruals c rpc p [] (record w' { store = s })).1)
