-- ===== src/Indexer/RentHandlers.antt =====
-- The handlers of the RentDistribution events: `_handle_rent_events` and
-- `_handle_reward_claim_event`.
use web3_real_estate.Base.{
  ℕ, ◌+◌, ◌*◌, ◌/◌, none, some, List, [], ◌∷◌, Bool, true, false, ◌&&◌, ◌||◌, not, eqb, leb, truthy,
  get_or, if◌then◌else◌, nat_eq, ok, err, pure, ◌>>=◌, ◌>>◌, modify, run, or_raise,
}
use web3_real_estate.Base.Keyed.{find, upsert}
use web3_real_estate.Calendar.{utc_date}
use web3_real_estate.Indexer.Rows.{
  Address, TxHash, PropertyRow, RentPaymentRow, RentalRow, DistributionRow, Percentage, ClaimStatus,
  claimable, claimed, PayoutRow, Store, call_failed, unique_violation, row_missing, TxType,
}
use web3_real_estate.Indexer.Chain.{
  Chain, Tx, Receipt, RentPaidEvent, InvestorPaidEvent, RentDistributedEvent, RewardsClaimedEvent,
}
use web3_real_estate.Indexer.Writes.{upsert_transaction, get_or_create_tenant_id}
use web3_real_estate.Indexer.Payouts.{
  claim_status, insert_payout, backfill_investor_payout_rows_for_distribution,
}
use web3_real_estate.Indexer.Handlers.{Call, transaction_row}

-- Another confirmed payment of the tenant for the property in the month, which the unique index
-- idx_rent_payments_tenant_property_cycle refuses.
unfoldable pub same_cycle : RentPaymentRow → RentPaymentRow → Bool
same_cycle new old =
    not (eqb new.tx_hash old.tx_hash)
    && new.confirmed
    && old.confirmed
    && eqb new.tenant_id old.tenant_id
    && eqb new.property_id old.property_id
    && eqb new.rent_year old.rent_year
    && eqb new.rent_month old.rent_month

unfoldable pub cycle_taken : RentPaymentRow → List RentPaymentRow → Bool
cycle_taken new [] = false
cycle_taken new (row ∷ rows) = same_cycle new row || cycle_taken new rows

abbrev pub payment_key : RentPaymentRow → TxHash
payment_key r = r.tx_hash

abbrev pub distribution_key : DistributionRow → TxHash
distribution_key r = r.distribution_tx_hash

-- `INSERT INTO rent_payments ... ON CONFLICT (tx_hash) DO UPDATE`, and the id selected after it.
unfoldable pub upsert_rent_payment : RentPaymentRow → Call ℕ
upsert_rent_payment row s =
    if cycle_taken row s.rent_payments
    then err unique_violation
    else (let rows =
          upsert payment_key (λ old. record row { id = old.id; tx_hash = old.tx_hash }) row
            s.rent_payments in
        let s' = record s { rent_payments = rows; next_payment = s.next_payment + 1 } in
        elim (find payment_key row.tx_hash rows) [
          | none ↦ err row_missing
          | some found ↦ ok (found.id, s')
        ])

unfoldable pub has_active_rental : ℕ → ℕ → List RentalRow → Bool
has_active_rental tenant_id property_id [] = false
has_active_rental tenant_id property_id (r ∷ rs) =
    eqb r.tenant_id tenant_id && eqb r.property_id property_id && r.active
    || has_active_rental tenant_id property_id rs

-- The first payment of a tenant opens the rental, at the property's rent if it has one.
unfoldable pub open_rental : ℕ → PropertyRow → ℕ → ℕ → Store → Store
open_rental tenant_id property_row timestamp amount_wei s =
    if has_active_rental tenant_id property_row.id s.rentals
    then s
    else (let row : RentalRow = record {
      tenant_id = tenant_id;
      property_id = property_row.id;
      rental_start_date = timestamp / 86400;
      monthly_rent = get_or property_row.monthly_rent_wei amount_wei;
      active = true;
    } in
        record s { rentals = row ∷ s.rentals })

-- `INSERT INTO rent_distributions ... ON CONFLICT DO UPDATE`, and the id selected after it. The
-- property of a known distribution stays.
unfoldable pub upsert_distribution : DistributionRow → Call ℕ
upsert_distribution row s =
    let rows =
      upsert distribution_key
        (λ old. record row {
          id = old.id;
          property_id = old.property_id;
          distribution_tx_hash = old.distribution_tx_hash;
        })
        row s.distributions in
    let s' = record s { distributions = rows; next_distribution = s.next_distribution + 1 } in
    elim (find distribution_key row.distribution_tx_hash rows) [
      | none ↦ err row_missing
      | some found ↦ ok (found.id, s')
    ]

abbrev pub distributed_total : List RentDistributedEvent → ℕ × ℕ
distributed_total [] = (0, 0)
distributed_total (e ∷ _) = (get_or e.total_amount 0, get_or e.investor_count 0)

-- bps / 100, or the share of the rent where the basis points round to nothing.
unfoldable pub event_percentage : ℕ → InvestorPaidEvent → Percentage
event_percentage amount_wei e =
    if eqb e.ownership_bps 0 && truthy e.amount && truthy amount_wei
    then record { numerator = e.amount * 100; denominator = amount_wei }
    else record { numerator = e.ownership_bps; denominator = 100 }

module _ (property_id distribution_id amount_wei : ℕ) (tx_hash : TxHash) (timestamp : ℕ) where
  unfoldable pub event_payout : InvestorPaidEvent → ClaimStatus → PayoutRow
  event_payout e claim = record {
    distribution_id = distribution_id;
    investor_wallet = e.investor;
    property_id = property_id;
    ownership_percentage = event_percentage amount_wei e;
    payout_amount_wei = e.amount;
    tx_hash = tx_hash;
    distributed_at = timestamp;
    claim = claim;
  }

  -- The loop over the InvestorPaid events; a replay writes no row twice.
  unfoldable pub insert_payouts : List InvestorPaidEvent → Store → ℕ × Store
  insert_payouts [] s = (0, s)
  insert_payouts (e ∷ es) s =
      let (n, s') =
        insert_payout (event_payout e (claim_status property_id e.investor timestamp s)) s in
      let (m, s'') = insert_payouts es s' in (n + m, s'')

pub record RentSummary : Type 0 where
  pub rent_payment_id : ℕ
  pub distribution_id : ℕ
  pub investors_paid : ℕ
  pub distributed_at : ℕ

pub record ClaimSummary : Type 0 where
  pub claimed_property_id : ℕ
  pub claimed_amount_wei : ℕ
  pub claimed_rows : ℕ

module _ (c : Chain) (tx : Tx) (receipt : Receipt) (property_row : PropertyRow) where
  -- Payout rows of the events; only if there is none, rows by the breakdown.
  unfoldable pub write_payouts : ℕ → ℕ → ℕ → List InvestorPaidEvent → Store → Store
  write_payouts distribution_id amount_wei timestamp events s =
      let (n, s') =
        insert_payouts property_row.id distribution_id amount_wei tx.hash timestamp events s in
      if eqb n 0 && truthy amount_wei
      then (backfill_investor_payout_rows_for_distribution c property_row.id distribution_id
          amount_wei tx.hash timestamp s').1
      else s'

  abbrev pub payment_row : RentPaidEvent → ℕ → ℕ → ℕ → RentPaymentRow
  payment_row event id tenant_id timestamp =
      let date = utc_date timestamp in
      record {
        id = id;
        tenant_id = tenant_id;
        property_id = property_row.id;
        amount_wei = event.amount;
        tx_hash = tx.hash;
        block_number = receipt.block_number;
        payment_date = timestamp;
        confirmed = true;
        rent_month = date.month;
        rent_year = date.year;
      }

  -- `_handle_rent_events`
  unfoldable pub handle_rent_events :
      RentPaidEvent → List InvestorPaidEvent → List RentDistributedEvent → Call RentSummary
  handle_rent_events event paid distributed = do
    tenant_id ← run (get_or_create_tenant_id event.tenant)
    timestamp ← or_raise (c.block_timestamp receipt.block_number) call_failed
    rent_payment_id ←
        λ s. upsert_rent_payment (payment_row event s.next_payment tenant_id timestamp) s
    modify (open_rental tenant_id property_row timestamp event.amount)
    distribution_id ← λ s.
        upsert_distribution
          (record {
            id = s.next_distribution;
            property_id = property_row.id;
            rent_payment_id = rent_payment_id;
            total_rent_collected = event.amount;
            total_distributed = (distributed_total distributed).0;
            investor_count = (distributed_total distributed).1;
            distribution_tx_hash = tx.hash;
            distributed_at = timestamp;
          })
          s
    modify (write_payouts distribution_id event.amount timestamp paid)
    modify (
        upsert_transaction (
          transaction_row c tx receipt TxType.rent_paid event.amount timestamp property_row.id
            event.tenant))
    pure (record {
      rent_payment_id = rent_payment_id;
      distribution_id = distribution_id;
      investors_paid = (distributed_total distributed).1;
      distributed_at = timestamp;
    })

-- The WHERE clause of the claim update, and the update of one row.
unfoldable pub mark_claimed : ℕ → Address → TxHash → ℕ → PayoutRow → ℕ × PayoutRow
mark_claimed property_id wallet tx_hash at row = elim row.claim [
  | claimed _ _ ↦ (0, row)
  | claimable ↦
      if eqb row.property_id property_id
        && eqb row.investor_wallet wallet
        && leb row.distributed_at at
      then (1, record row { claim = claimed tx_hash at })
      else (0, row)
]

unfoldable pub mark_all : ℕ → Address → TxHash → ℕ → List PayoutRow → ℕ × List PayoutRow
mark_all property_id wallet tx_hash at [] = (0, [])
mark_all property_id wallet tx_hash at (row ∷ rows) =
    let (n, row') = mark_claimed property_id wallet tx_hash at row in
    let (m, rows') = mark_all property_id wallet tx_hash at rows in (n + m, row' ∷ rows')

module _ (c : Chain) (tx : Tx) (receipt : Receipt) (property_row : PropertyRow) where
  unfoldable pub mark_payouts : RewardsClaimedEvent → ℕ → Store → ℕ × Store
  mark_payouts event timestamp s =
      let (n, rows) = mark_all property_row.id event.investor tx.hash timestamp s.payouts in
      (n, record s { payouts = rows })

  -- `_handle_reward_claim_event`
  unfoldable pub handle_reward_claim_event : RewardsClaimedEvent → Call ClaimSummary
  handle_reward_claim_event event = do
    timestamp ← or_raise (c.block_timestamp receipt.block_number) call_failed
    claimed_rows ← run (mark_payouts event timestamp)
    modify (
        upsert_transaction (
          transaction_row c tx receipt TxType.rewards_claimed event.amount timestamp property_row.id
            event.investor))
    pure (record {
      claimed_property_id = property_row.id;
      claimed_amount_wei = event.amount;
      claimed_rows = claimed_rows;
    })
