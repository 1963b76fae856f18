-- ===== src/Indexer/Sync/Frame.antt =====
-- What a pass of `sync_once` does to the sync state and the properties while it reconciles.
use web3_real_estate.Base.{ℕ, ◌≡◌, Option, List, arith}
use web3_real_estate.Base.Keeps.{After}
use web3_real_estate.Indexer.Rows.{Store, PropertyRow, RentPaymentRow, DistributionRow}
use web3_real_estate.Indexer.Writes.{
  record_event, upsert_transaction, get_or_create_user_id, get_or_create_tenant_id,
  update_ownership, set_ownership, upsert_investment_row,
}
use web3_real_estate.Indexer.Payouts.{insert_payout}
use web3_real_estate.Indexer.RentHandlers.{
  upsert_rent_payment, open_rental, upsert_distribution, mark_payouts,
}
use web3_real_estate.Indexer.Stable.{Stable}

module _ (n : Option ℕ) (rows : List PropertyRow) where
  pub record Frame (s : Store) : Type 0 where
    pub same_sync_state : s.sync_state ≡ n
    pub same_properties : s.properties ≡ rows

  payment-Frame :
      (row : RentPaymentRow) (s : Store) → Frame s → After Frame (upsert_rent_payment row s)
  unfolding upsert_rent_payment
  payment-Frame row s f = ground arith

  distribution-Frame :
      (row : DistributionRow) (s : Store) → Frame s → After Frame (upsert_distribution row s)
  unfolding upsert_distribution
  distribution-Frame row s f = ground arith

  pub Frame-Stable : Stable Frame
  unfolding record_event upsert_transaction get_or_create_user_id get_or_create_tenant_id
      update_ownership set_ownership upsert_investment_row open_rental insert_payout mark_payouts
  Frame-Stable = record {
    event = λ h i b a name s f. ground arith;
    transaction = λ row s f. ground arith;
    user = λ w s f. ground arith;
    tenant = λ w s f. ground arith;
    delta = λ u p d s f. ground arith;
    balance = λ u p b s f. ground arith;
    investment = λ p w a e h t s f. ground arith;
    payment = payment-Frame;
    rental = λ t row d a s f. ground arith;
    distribution = distribution-Frame;
    payout = λ row s f. ground arith;
    marks = λ c tx r row e t s f. ground arith;
  }
