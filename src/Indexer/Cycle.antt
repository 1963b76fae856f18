-- ===== src/Indexer/Cycle.antt =====
-- The unique index on the rent cycle, which the upsert by the transaction hash does not cover.
use web3_real_estate.Base.{ℕ, ◌≡◌, true, arith, nat_eq, List, [], ◌∷◌, ok, err}
use web3_real_estate.Base.Keyed.{upsert}
use web3_real_estate.Indexer.Rows.{Store, RentPaymentRow, Failure}
use web3_real_estate.Indexer.RentHandlers.{
  same_cycle, cycle_taken, upsert_rent_payment, payment_key,
}

upsert_taken :
    (new old : RentPaymentRow) (rows : List RentPaymentRow)
    → same_cycle new old ≡ true
    → cycle_taken new
        (upsert payment_key (λ r. record old { id = r.id; tx_hash = r.tx_hash }) old rows)
      ≡ true
unfolding upsert cycle_taken same_cycle
upsert_taken new old [] h = ground (arith, h)
upsert_taken new old (x ∷ rows) h = ground (arith, h, upsert_taken new old rows h)

-- Two payments of one tenant for one property in one month, by two transactions: once the first is
-- written as confirmed, the second is refused, whatever its other columns are.
pub upsert_rent_payment_second :
    (first second : RentPaymentRow) (id : ℕ) (s t : Store)
    → same_cycle second first ≡ true
    → upsert_rent_payment first s ≡ ok (id, t)
    → upsert_rent_payment second t ≡ err Failure.unique_violation
unfolding upsert_rent_payment
upsert_rent_payment_second first second id s t h e =
    ground (arith, h, e, upsert_taken second first s.rent_payments h)
