-- ===== src/Yield/Backfill.antt =====
-- The credits for missed rent: `backfill_missed_rent_accruals` of backend/api/_helpers.py.
use web3_real_estate.Base.{
  ℕ, ◌-◌, Bool, true, false, ◌&&◌, ◌||◌, not, leb, eqb, if◌then◌else◌, Option, none, some, List, [],
  ◌∷◌, ◌++◌, nat_eq, pair_eq,
}
use web3_real_estate.Base.Keyed.{find}
use web3_real_estate.Indexer.Rows.{
  Address, DistributionRow, PayoutRow, claimable, Store, payout_key,
}
use web3_real_estate.Indexer.Chain.{Chain}
use web3_real_estate.Indexer.Payouts.{Share, get_rent_distribution_breakdown, insert_payout}
use web3_real_estate.RentContract
use web3_real_estate.RentContract.{Contract, PropertyInfo}
use web3_real_estate.Yield.{Rpc, World, is_active, get_rent_property_info, accrue_investor_rewards}

-- An entry of the list that the backfill returns.
pub record Credit : Type 0 where
  pub investor_wallet : Address
  pub distribution_id : ℕ
  pub amount_wei : ℕ

unfoldable pub mem : Address → List Address → Bool
mem w [] = false
mem w (x ∷ xs) = eqb w x || mem w xs

-- `ORDER BY distributed_at ASC`
unfoldable pub insert_distribution : DistributionRow → List DistributionRow → List DistributionRow
insert_distribution d [] = d ∷ []
insert_distribution d (x ∷ xs) =
    if leb d.distributed_at x.distributed_at then d ∷ x ∷ xs else x ∷ insert_distribution d xs

unfoldable pub distributions_of : ℕ → List DistributionRow → List DistributionRow
distributions_of p [] = []
distributions_of p (d ∷ ds) =
    let rest = distributions_of p ds in
    if eqb d.property_id p then insert_distribution d rest else rest

-- `existing["payout_amount_wei"] or 0`
unfoldable pub already_wei : ℕ × Address → List PayoutRow → ℕ
already_wei k rows = elim (find payout_key k rows) [ none ↦ 0 | some r ↦ r.payout_amount_wei ]

-- The UPDATE of one row. The columns of an earlier claim are read no more once the status is
-- 'claimable'.
unfoldable pub raise_payout : ℕ × Address → Share → List PayoutRow → List PayoutRow
raise_payout k x [] = []
raise_payout (d, a) x (r ∷ rs) =
    if eqb r.distribution_id d && eqb r.investor_wallet a
    then record r {
      payout_amount_wei = x.payout_wei;
      ownership_percentage = x.ownership_pct;
      claim = claimable;
    }
      ∷ raise_payout (d, a) x rs
    else r ∷ raise_payout (d, a) x rs

unfoldable pub missed_row : ℕ → DistributionRow → Share → PayoutRow
missed_row p d x = record {
  distribution_id = d.id;
  investor_wallet = x.investor;
  property_id = p;
  ownership_percentage = x.ownership_pct;
  payout_amount_wei = x.payout_wei;
  tx_hash = d.distribution_tx_hash;
  distributed_at = d.distributed_at;
  claim = claimable;
}

-- The write that follows an accrual
unfoldable pub record_payout : ℕ → DistributionRow → Share → Store → Store
record_payout p d x s = elim (find payout_key (d.id, x.investor) s.payouts) [
  | some _ ↦ record s { payouts = raise_payout (d.id, x.investor) x s.payouts }
  | none ↦ (insert_payout (missed_row p d x) s).1
]

-- `wallet_filter`: an empty list of wallets is no filter.
unfoldable pub passes : List Address → Address → Bool
passes [] wallet = true
passes (x ∷ xs) wallet = mem wallet (x ∷ xs)

-- Credits of a call and of the rest of a loop; a call that raises ends the loop.
abbrev pub then_more :
    Option (List Credit) × World
    → (World → Option (List Credit) × World)
    → Option (List Credit) × World
then_more (none, w) rest = (none, w)
then_more (some cs, w) rest =
    let (r, w') = rest w in
    (elim r as (λ _. Option (List Credit)) [ none ↦ none | some ds ↦ some (cs ++ ds) ], w')

module _ (rpc : Rpc) where
  -- One turn of the loop over a breakdown
  unfoldable pub backfill_entry :
      ℕ → List Address → DistributionRow → Share → World → Option (List Credit) × World
  backfill_entry p filter d x w =
      let already = already_wei (d.id, x.investor) w.store.payouts in
      if not (passes filter x.investor) || leb x.payout_wei already
      then (some [], w)
      else elim (accrue_investor_rewards rpc p x.investor (x.payout_wei - already) w) [
        | none ↦ (none, w)
        | some w' ↦ (
          some (
              record {
                investor_wallet = x.investor;
                distribution_id = d.id;
                amount_wei = x.payout_wei - already;
              }
              ∷ []),
          record w' { store = record_payout p d x w'.store },
        )
      ]

  unfoldable pub backfill_entries :
      ℕ → List Address → DistributionRow → List Share → World → Option (List Credit) × World
  backfill_entries p filter d [] w = (some [], w)
  backfill_entries p filter d (x ∷ xs) w =
      then_more (backfill_entry p filter d x w) (backfill_entries p filter d xs)

module _ (c : Chain) (rpc : Rpc) where
  -- The chain as the backend reads it, with the contract's answers to `calculateDistribution`.
  unfoldable pub seen : Contract → Chain
  seen s = record c {
    calculate_distribution =
        λ p rent. if rpc.reads p then RentContract.calculate_distribution c s p rent else none;
  }

  unfoldable pub breakdown : ℕ → ℕ → World → List Share
  breakdown p rent w = get_rent_distribution_breakdown (seen w.contract) p rent w.store

  unfoldable pub backfill_distribution :
      ℕ → List Address → DistributionRow → World → Option (List Credit) × World
  backfill_distribution p filter d w =
      if eqb d.total_rent_collected 0
      then (some [], w)
      else backfill_entries rpc p filter d (breakdown p d.total_rent_collected w) w

  unfoldable pub backfill_distributions :
      ℕ → List Address → List DistributionRow → World → Option (List Credit) × World
  backfill_distributions p filter [] w = (some [], w)
  backfill_distributions p filter (d ∷ ds) w =
      then_more (backfill_distribution p filter d w) (backfill_distributions p filter ds)

  unfoldable pub backfill_missed_rent_accruals :
      ℕ → List Address → World → Option (List Credit) × World
  backfill_missed_rent_accruals p filter w =
      if rpc.supports_accrue && is_active (get_rent_property_info rpc p w)
      then backfill_distributions p filter (distributions_of p w.store.distributions) w
      else (some [], w)
