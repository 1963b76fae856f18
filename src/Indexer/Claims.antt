-- ===== src/Indexer/Claims.antt =====
-- Claims of rewards, in either order of arrival and replayed (`_handle_reward_claim_event`).
use web3_real_estate.Base.{ℕ, ◌≡◌, refl, List, [], ◌∷◌, arith, nat_eq}
use web3_real_estate.Indexer.Rows.{TxHash, TransactionRow, PayoutRow}
use web3_real_estate.Indexer.RentHandlers.{mark_claimed, mark_all}

abbrev transaction_key : TransactionRow → TxHash
transaction_key r = r.tx_hash

-- A claim marks each payout once: run again, it finds nothing to mark and changes no row.
mark_all_again :
    (p w h t : ℕ) (rows : List PayoutRow)
    → let rows' = (mark_all p w h t rows).1 in mark_all p w h t rows' ≡ (0, rows')
unfolding mark_all mark_claimed
mark_all_again p w h t [] = refl
mark_all_again p w h t (row ∷ rows) = ground (arith, mark_all_again p w h t rows)
