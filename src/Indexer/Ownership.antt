-- ===== src/Indexer/Ownership.antt =====
-- What the events do to the token holdings.
use web3_real_estate.Base.{
  ℕ, suc, ◌+◌, ◌-◌, ◌≤◌, ◌≡◌, refl, none, some, List, [], ◌∷◌, Bool, eqb, arith, if◌then◌else◌,
  pair_eq, get_or, pair_beq, pair_beq_iff, ok, Option-cases, inl, inr,
}
use web3_real_estate.Base.Int.{ℤ, pos, add_clamped}
use web3_real_estate.Base.Keyed.{find, upsert, find-upsert}
use web3_real_estate.Indexer.Rows.{
  Address, TxHash, PropertyRow, TransactionRow, OwnershipRow, Store, TxType, ownership_key,
}
use web3_real_estate.Indexer.Chain.{Chain, Tx, Receipt, InvestmentEvent}
use web3_real_estate.Indexer.Writes.{
  get_or_create_user_id, update_ownership, set_ownership, sync_ownership_to_chain,
  upsert_transaction, upsert_investment_row,
}
use web3_real_estate.Indexer.Handlers.{
  handle_investment_event, credit_investor, to_base_units, transaction_row,
}

-- The tokens that the rows hold for a user and a property.
unfoldable pub owned : ℕ → ℕ → List OwnershipRow → ℕ
owned user_id property_id rows = elim (find ownership_key (user_id, property_id) rows) [
  | none ↦ 0
  | some row ↦ row.token_amount
]

-- The tokens of all users in a property.
unfoldable pub total_owned : ℕ → List OwnershipRow → ℕ
total_owned property_id [] = 0
total_owned property_id (row ∷ rows) =
    (if eqb row.property_id property_id then row.token_amount else 0) + total_owned property_id rows

pub owned-update :
    (u p v q : ℕ) (d : ℤ) (s : Store)
    → owned v q (update_ownership u p d s).ownerships ≡ (
        if pair_beq (v, q) (u, p)
        then add_clamped (owned u p s.ownerships) d
        else owned v q s.ownerships)
unfolding update_ownership owned
owned-update u p v q d s = ground (
  arith,
  find-upsert ownership_key (λ old. record old { token_amount = add_clamped old.token_amount d })
      (record { user_id = u; property_id = p; token_amount = add_clamped 0 d }) (v, q) s.ownerships
      (λ x. refl),
)

pub owned-set :
    (u p v q b : ℕ) (s : Store)
    → owned v q (set_ownership u p b s).ownerships
      ≡ (if pair_beq (v, q) (u, p) then b else owned v q s.ownerships)
unfolding set_ownership owned
owned-set u p v q b s = ground (
  arith,
  find-upsert ownership_key (λ old. record old { token_amount = b })
      (record { user_id = u; property_id = p; token_amount = b }) (v, q) s.ownerships (λ x. refl),
)

pub total_owned-update_pos :
    (u p d : ℕ) (q : ℕ) (rows : List OwnershipRow)
    → total_owned q (
        upsert ownership_key
          (λ old. record old { token_amount = old.token_amount + d })
          (record { user_id = u; property_id = p; token_amount = d })
          rows)
      ≡ total_owned q rows + (if eqb p q then d else 0)
unfolding upsert total_owned
total_owned-update_pos u p d q [] = ground arith
total_owned-update_pos u p d q (x ∷ xs) = ground (arith, total_owned-update_pos u p d q xs)

pub total_owned-update_neg :
    (u p d : ℕ) (rows : List OwnershipRow)
    → suc d ≤ owned u p rows
    → total_owned p (
          upsert ownership_key
            (λ old. record old { token_amount = old.token_amount - suc d })
            (record { user_id = u; property_id = p; token_amount = 0 - suc d })
            rows)
        + suc d
      ≡ total_owned p rows
unfolding upsert find owned total_owned
total_owned-update_neg u p d [] h = ground arith
total_owned-update_neg u p d (x ∷ xs) h = ground (arith, total_owned-update_neg u p d xs)

pub user_lookup_same_rows :
    (w : Address) (s : Store) → (get_or_create_user_id w s).1.ownerships ≡ s.ownerships
unfolding get_or_create_user_id
user_lookup_same_rows w s = ground arith

-- The writes of the other tables leave the holdings.
pub upsert_transaction_same_rows :
    (row : TransactionRow) (s : Store) → (upsert_transaction row s).ownerships ≡ s.ownerships
unfolding upsert_transaction
upsert_transaction_same_rows row s = refl

pub upsert_investment_same_rows :
    (p : ℕ) (w : Address) (tokens eth : ℕ) (hash : TxHash) (time : ℕ) (s : Store)
    → (upsert_investment_row p w tokens eth hash time s).ownerships ≡ s.ownerships
unfolding upsert_investment_row
upsert_investment_same_rows p w tokens eth hash time s = ground arith

module _ (c : Chain) (tx : Tx) (receipt : Receipt) (row : PropertyRow) (token : Address) where
  pub sync_holdings :
      (w : Address) (u v q : ℕ) (s : Store)
      → owned v q (sync_ownership_to_chain c token row.id w (some u) s).ownerships ≡ (
          if pair_beq (v, q) (u, row.id)
          then get_or (c.balance_of token w) (owned v q s.ownerships)
          else owned v q s.ownerships)
  unfolding sync_ownership_to_chain
  sync_holdings w u v q s = elim (Option-cases (c.balance_of token w)) [
    | inl e ↦ rw e ground arith
    | inr (b, e) ↦ rw (e, sync_ownership_to_chain) (owned-set u row.id v q b s)
  ]

  credit_holdings :
      (w : Address) (u amount : ℕ) (recorded : Bool) (v q : ℕ) (s : Store)
      → owned v q (credit_investor c tx receipt row token w u amount recorded s).ownerships ≡ (
          if pair_beq (v, q) (u, row.id)
          then (if recorded
              then owned v q s.ownerships + amount
              else get_or (c.balance_of token w) (owned v q s.ownerships))
          else owned v q s.ownerships)
  unfolding credit_investor
  credit_holdings w u amount recorded v q s = ground (
    arith,
    owned-update u row.id v q (pos amount) s,
    sync_holdings w u v q s,
    pair_beq_iff (v, q) (u, row.id),
  )

  -- An InvestmentCompleted event of a known block, sent by the investor: it succeeds, and the
  -- investor's holding of the property rises by the tokens bought if the event is new, becomes the
  -- balance on the chain if it is a replay and the balance can be read, and stays if it cannot.
  -- Every other holding stays.
  pub handle_investment_event_holdings :
      (event : InvestmentEvent) (recorded : Bool) (s : Store) {time : ℕ}
      → event.investor ≡ tx.from_address
      → c.block_timestamp receipt.block_number ≡ some time
      → (t : Store) × (handle_investment_event c tx receipt row token event recorded s ≡ ok (tt, t))
        × ((v q : ℕ)
            → let user = (get_or_create_user_id event.investor s).0 in
              owned v q t.ownerships ≡ (
                if pair_beq (v, q) (user, row.id)
                then (if recorded
                    then owned v q s.ownerships + to_base_units event.token_amount
                    else get_or (c.balance_of token event.investor) (owned v q s.ownerships))
                else owned v q s.ownerships))
  unfolding handle_investment_event
  handle_investment_event_holdings event recorded s {time} sender known =
      let amount = to_base_units event.token_amount in
      let (user, s1) = get_or_create_user_id event.investor s in
      let s2 = credit_investor c tx receipt row token event.investor user amount recorded s1 in
      let s3 = upsert_investment_row row.id event.investor amount event.eth_spent tx.hash time s2 in
      (
        upsert_transaction
            (transaction_row c tx receipt TxType.investment_completed amount time row.id
              event.investor)
            s3,
        ground (arith, sender, known),
        λ v q.
            rw
              (
                upsert_transaction_same_rows _ s3,
                upsert_investment_same_rows _ _ _ _ _ _ s2,
                credit_holdings event.investor user amount recorded v q s1,
                user_lookup_same_rows event.investor s,
              )
              refl,
      )
