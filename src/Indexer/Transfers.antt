-- ===== src/Indexer/Transfers.antt =====
-- What a Transfer event does to the token holdings.
use web3_real_estate.Base.{
  ℕ, suc, ◌+◌, ◌≤◌, ◌<◌, ◌≡◌, ◌≢◌, ap, ◌∙◌, some, Bool, true, false, ◌&&◌, not, eqb, arith,
  if◌then◌else◌, pair_eq, nat_eq, pair_beq, ok, Bool-cases, inl, inr,
}
use web3_real_estate.Base.Int.{pos, neg}
use web3_real_estate.Indexer.Rows.{Address, zero_address, PropertyRow, Store}
use web3_real_estate.Indexer.Chain.{Chain, Tx, Receipt, TransferEvent}
use web3_real_estate.Indexer.Writes.{
  get_or_create_user_id, update_ownership, set_ownership, sync_ownership_to_chain,
  upsert_transaction,
}
use web3_real_estate.Indexer.Handlers.{
  handle_transfer_event, is_sale_transfer, move_by_delta, move_by_chain, move_tokens, record_sale,
  transfer_type, transaction_row,
}
use web3_real_estate.Indexer.Ownership.{
  owned, total_owned, owned-set, total_owned-update_pos, total_owned-update_neg,
  user_lookup_same_rows, upsert_transaction_same_rows, upsert_investment_same_rows,
}

-- The tokens come to a wallet: not to the zero address and not back to the token contract.
abbrev pub arrives : Address → TransferEvent → Bool
arrives token event = not (eqb event.to_address zero_address) && not (eqb event.to_address token)

-- They come from somebody's holding: they are not minted, and not sold by the token contract.
abbrev pub leaves : Address → TransferEvent → Bool
leaves token event =
    not (eqb event.from_address zero_address)
    && not (eqb event.from_address token && arrives token event)

total_owned-credit :
    (u p value : ℕ) (s : Store)
    → total_owned p (update_ownership u p (pos value) s).ownerships
      ≡ total_owned p s.ownerships + value
unfolding update_ownership
total_owned-credit u p value s = ground (arith, total_owned-update_pos u p value p s.ownerships)

total_owned-debit :
    (u p value : ℕ) (s : Store)
    → 0 < value
    → value ≤ owned u p s.ownerships
    → total_owned p (update_ownership u p (neg value) s).ownerships + value
      ≡ total_owned p s.ownerships
unfolding update_ownership
total_owned-debit u p ℕ.zero s h k = ground arith
total_owned-debit u p (suc d) s h k = ground (arith, total_owned-update_neg u p d s.ownerships k)

module _ (c : Chain) (tx : Tx) (receipt : Receipt) (row : PropertyRow) (token : Address) where
  record_sale_same_rows :
      (event : TransferEvent) (time : ℕ) (s : Store)
      → (record_sale c tx receipt row token event time s).ownerships ≡ s.ownerships
  unfolding record_sale
  record_sale_same_rows event time s = ground (
    arith,
    upsert_investment_same_rows row.id event.to_address event.value tx.value tx.hash time s,
  )

  -- The store after the first and after the second half of `move_by_delta`.
  abbrev debited : TransferEvent → Store → Store
  debited event s =
      if leaves token event
      then update_ownership (get_or_create_user_id event.from_address s).0 row.id (neg event.value)
          (get_or_create_user_id event.from_address s).1
      else s

  abbrev credited : TransferEvent → Store → Store
  credited event s =
      if arrives token event
      then update_ownership (get_or_create_user_id event.to_address s).0 row.id (pos event.value)
          (get_or_create_user_id event.to_address s).1
      else s

  move_by_delta-halves :
      (event : TransferEvent) (s : Store)
      → move_by_delta c tx receipt row token event s ≡ credited event (debited event s)
  unfolding move_by_delta is_sale_transfer
  move_by_delta-halves event s = ground arith

  debited_total :
      (event : TransferEvent) (s : Store)
      → 0 < event.value
      → (leaves token event ≡ true
          → event.value ≤ owned (get_or_create_user_id event.from_address s).0 row.id s.ownerships)
      → total_owned row.id (debited event s).ownerships
          + (if leaves token event then event.value else 0)
        ≡ total_owned row.id s.ownerships
  debited_total event s positive covered = elim (Bool-cases (leaves token event)) [
    | inr l ↦ rw l (omega arith)
    | inl l ↦
        let same = user_lookup_same_rows event.from_address s in
        rw l (
          total_owned-debit (get_or_create_user_id event.from_address s).0 row.id event.value
            (get_or_create_user_id event.from_address s).1 positive (rw same (covered l))
          ∙ ap (total_owned row.id) same)
  ]

  credited_total :
      (event : TransferEvent) (s : Store)
      → total_owned row.id (credited event s).ownerships
        ≡ total_owned row.id s.ownerships + (if arrives token event then event.value else 0)
  credited_total event s = elim (Bool-cases (arrives token event)) [
    | inr a ↦ rw a (omega arith)
    | inl a ↦ rw a (
        total_owned-credit (get_or_create_user_id event.to_address s).0 row.id event.value
          (get_or_create_user_id event.to_address s).1
        ∙ ap (λ rows. total_owned row.id rows + event.value)
            (user_lookup_same_rows event.to_address s))
  ]

  -- What follows the moves leaves the holdings.
  rest_same_rows :
      (event : TransferEvent) (time : ℕ) (s : Store)
      → (upsert_transaction
          (transaction_row c tx receipt
            (transfer_type c tx receipt row token event)
            event.value
            time
            row.id
            event.to_address)
          (record_sale c tx receipt row token event time s)).ownerships
        ≡ s.ownerships
  rest_same_rows event time s =
      upsert_transaction_same_rows _ (record_sale c tx receipt row token event time s)
      ∙ record_sale_same_rows event time s

  new_moves :
      (event : TransferEvent) (s : Store)
      → move_tokens c tx receipt row token event true s ≡ credited event (debited event s)
  unfolding move_tokens
  new_moves event s = move_by_delta-halves event s

  -- A Transfer event that is new, of a known block and for a positive amount, whose sender has the
  -- tokens recorded if they come from a holding: it succeeds, and the recorded tokens of the property
  -- rise by the amount if it is minted or sold to a wallet, fall by it if it goes to the zero address
  -- or back to the contract, and stay the same if it goes from one wallet to another.
  pub handle_transfer_event_total :
      (event : TransferEvent) (s : Store) {time : ℕ}
      → c.block_timestamp receipt.block_number ≡ some time
      → 0 < event.value
      → (leaves token event ≡ true
          → event.value ≤ owned (get_or_create_user_id event.from_address s).0 row.id s.ownerships)
      → (t : Store) × (handle_transfer_event c tx receipt row token event true s ≡ ok (tt, t))
        × (total_owned row.id t.ownerships + (if leaves token event then event.value else 0)
            ≡ total_owned row.id s.ownerships + (if arrives token event then event.value else 0))
  unfolding handle_transfer_event
  handle_transfer_event_total event s {time} known positive covered =
      elim (Bool-cases (eqb event.from_address zero_address && eqb event.to_address token)) [
        | inl minted ↦ (s, ground (arith, minted), ground (arith, minted))
        | inr moved ↦ (
          upsert_transaction
              (transaction_row c tx receipt (transfer_type c tx receipt row token event) event.value
                time row.id event.to_address)
              (record_sale c tx receipt row token event time
                (move_tokens c tx receipt row token event true s)),
          ground (arith, moved, known, positive),
          rw
              (
                rest_same_rows event time (move_tokens c tx receipt row token event true s),
                new_moves event s,
              )
              (omega (
                arith,
                debited_total event s positive covered,
                credited_total event (debited event s),
              )),
        )
      ]

  known_lookup :
      (w : Address) (u p b : ℕ) (s : Store)
      → (get_or_create_user_id w (set_ownership u p b s)).0 ≡ (get_or_create_user_id w s).0
  unfolding get_or_create_user_id set_ownership
  known_lookup w u p b s = ground arith

  -- A Transfer event of a known block that is seen again, for a positive amount between two wallets
  -- whose balances on the chain can be read: it succeeds, sets the holdings of the two in the property
  -- to these balances, and leaves every other holding.
  pub handle_transfer_event_replayed :
      (event : TransferEvent) (s : Store) {time bf bt : ℕ}
      → c.block_timestamp receipt.block_number ≡ some time
      → 0 < event.value
      → event.from_address ≢ zero_address
      → event.from_address ≢ token
      → arrives token event ≡ true
      → c.balance_of token event.from_address ≡ some bf
      → c.balance_of token event.to_address ≡ some bt
      → (t : Store) × (handle_transfer_event c tx receipt row token event false s ≡ ok (tt, t))
        × ((v q : ℕ)
            → let (sender, s1) = get_or_create_user_id event.from_address s in
              let receiver = (get_or_create_user_id event.to_address s1).0 in
              owned v q t.ownerships ≡ (
                if pair_beq (v, q) (receiver, row.id)
                then bt
                else if pair_beq (v, q) (sender, row.id)
                then bf
                else owned v q s.ownerships))
  unfolding handle_transfer_event
  handle_transfer_event_replayed event s {time} {bf} {bt} known positive real other arrived hf ht =
      let (sender, s1) = get_or_create_user_id event.from_address s in
      let s2 = set_ownership sender row.id bf s1 in
      let (receiver, s3) = get_or_create_user_id event.to_address s2 in
      let last = set_ownership receiver row.id bt s3 in
      let moved : move_tokens c tx receipt row token event false s ≡ last =
        unfold move_tokens move_by_chain is_sale_transfer sync_ownership_to_chain in
        ground (arith, real, other, arrived, hf, ht) in
      (
        upsert_transaction
            (transaction_row c tx receipt (transfer_type c tx receipt row token event) event.value
              time row.id event.to_address)
            (record_sale c tx receipt row token event time
              (move_tokens c tx receipt row token event false s)),
        ground (arith, real, known, positive),
        λ v q.
            rw (rest_same_rows event time (move_tokens c tx receipt row token event false s), moved)
              (ground (
                arith,
                owned-set receiver row.id v q bt s3,
                owned-set sender row.id v q bf s1,
                user_lookup_same_rows event.to_address s2,
                user_lookup_same_rows event.from_address s,
                known_lookup event.to_address sender row.id bf s1,
              )),
      )
