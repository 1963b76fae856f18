-- ===== src/Indexer/Stable.antt =====
-- Predicates on the store along the handlers, from one law for each write.
pub mod Whole
use web3_real_estate.Base.{
  ℕ, Option, none, some, List, [], ◌∷◌, Bool, true, false, arith, if◌then◌else◌, Bool-cases,
  Option-cases, inl, inr, eqb, ◌&&◌, truthy,
}
use web3_real_estate.Base.Int.{ℤ, pos}
use web3_real_estate.Base.Keeps.{Keeps, After, keeps_rules}
use web3_real_estate.Indexer.Rows.{
  Store, PropertyRow, Address, EventName, TransactionRow, PayoutRow, RentPaymentRow,
  DistributionRow, TxHash,
}
use web3_real_estate.Indexer.Chain.{
  Chain, Tx, Receipt, InvestmentEvent, TransferEvent, RentPaidEvent, InvestorPaidEvent,
  RentDistributedEvent, RewardsClaimedEvent,
}
use web3_real_estate.Indexer.Writes.{
  record_event, upsert_transaction, get_or_create_user_id, get_or_create_tenant_id,
  update_ownership, set_ownership, sync_ownership_to_chain, upsert_investment_row,
}
use web3_real_estate.Indexer.Payouts.{
  Share, insert_payout, backfill_share, backfill_shares, payout_row, claim_status,
  backfill_investor_payout_rows_for_distribution, get_rent_distribution_breakdown,
}
use web3_real_estate.Indexer.Handlers.{
  handle_investment_event, credit_investor, handle_transfer_event, move_by_delta, move_by_chain,
  move_tokens, record_sale,
}
use web3_real_estate.Indexer.RentHandlers.{
  upsert_rent_payment, open_rental, upsert_distribution, insert_payouts, write_payouts,
  mark_payouts, handle_rent_events, handle_reward_claim_event,
}

-- The writes, one law for each.
pub record Stable (P : Store → Type 0) : Type 0 where
  pub event :
      (h i b : ℕ) (a : Address) (name : EventName) (s : Store)
      → P s
      → P (record_event h i b a name s).1
  pub transaction : (row : TransactionRow) (s : Store) → P s → P (upsert_transaction row s)
  pub user : (w : Address) (s : Store) → P s → P (get_or_create_user_id w s).1
  pub tenant : (w : Address) (s : Store) → P s → P (get_or_create_tenant_id w s).1
  pub delta : (u p : ℕ) (d : ℤ) (s : Store) → P s → P (update_ownership u p d s)
  pub balance : (u p b : ℕ) (s : Store) → P s → P (set_ownership u p b s)
  pub investment : (p w a e h t : ℕ) (s : Store) → P s → P (upsert_investment_row p w a e h t s)
  pub payment : (row : RentPaymentRow) (s : Store) → P s → After P (upsert_rent_payment row s)
  pub rental :
      (tenant : ℕ) (row : PropertyRow) (t a : ℕ) (s : Store)
      → P s
      → P (open_rental tenant row t a s)
  pub distribution : (row : DistributionRow) (s : Store) → P s → After P (upsert_distribution row s)
  pub payout : (row : PayoutRow) (s : Store) → P s → P (insert_payout row s).1
  pub marks :
      (c : Chain) (tx : Tx) (r : Receipt) (row : PropertyRow) (e : RewardsClaimedEvent) (t : ℕ)
      (s : Store)
      → P s
      → P (mark_payouts c tx r row e t s).1

module _ {P : Store → Type 0} (st : Stable P) where
  sync_Stable :
      (c : Chain) (t : Address) (p : ℕ) (w : Address) (u : Option ℕ) (s : Store)
      → P s
      → P (sync_ownership_to_chain c t p w u s)
  unfolding sync_ownership_to_chain
  sync_Stable c t p w u s h = elim (Option-cases (c.balance_of t w)) [
    | inl e ↦ rw (e, sync_ownership_to_chain) h
    | inr (b, e) ↦ rw (e, sync_ownership_to_chain) (set_for u b)
  ]
    where
      set_for :
          (u : Option ℕ) (b : ℕ)
          → P (elim u as (λ _. Store) [
            | some user ↦ set_ownership user p b s
            | none ↦ set_ownership (get_or_create_user_id w s).0 p b (get_or_create_user_id w s).1
          ])
      set_for none b = st.balance _ p b _ (st.user w s h)
      set_for (some user) b = st.balance user p b s h

  module _ (c : Chain) (tx : Tx) (r : Receipt) (row : PropertyRow) where
    credit_investor_Stable :
        (t w u a : ℕ) (b : Bool) (s : Store) → P s → P (credit_investor c tx r row t w u a b s)
    unfolding credit_investor
    credit_investor_Stable t w u a true s f = st.delta u row.id (pos a) s f
    credit_investor_Stable t w u a false s f = sync_Stable c t row.id w (some u) s f

    pub handle_investment_event_Stable :
        (t : Address) (e : InvestmentEvent) (b : Bool)
        → Keeps P (handle_investment_event c tx r row t e b)
    unfolding handle_investment_event
    handle_investment_event_Stable t e b =
        search (keeps_rules, credit_investor_Stable, st.user, st.investment, st.transaction) depth 9

    if_Stable : (b : Bool) (s t : Store) → P s → P t → P (if b then s else t)
    if_Stable true s t h k = h
    if_Stable false s t h k = k

    move_by_delta_Stable :
        (t : Address) (e : TransferEvent) (s : Store) → P s → P (move_by_delta c tx r row t e s)
    unfolding move_by_delta
    move_by_delta_Stable t e s h = search (if_Stable, st.delta, st.user) depth 9

    move_by_chain_Stable :
        (t : Address) (e : TransferEvent) (s : Store) → P s → P (move_by_chain c tx r row t e s)
    unfolding move_by_chain
    move_by_chain_Stable t e s h = search (if_Stable, sync_Stable) depth 9

    move_tokens_Stable :
        (t : Address) (e : TransferEvent) (b : Bool) (s : Store)
        → P s
        → P (move_tokens c tx r row t e b s)
    unfolding move_tokens
    move_tokens_Stable t e b s h = search (if_Stable, move_by_delta_Stable, move_by_chain_Stable)

    record_sale_Stable :
        (t : Address) (e : TransferEvent) (n : ℕ) (s : Store)
        → P s
        → P (record_sale c tx r row t e n s)
    unfolding record_sale
    record_sale_Stable t e n s h = search (if_Stable, st.investment)

    pub handle_transfer_event_Stable :
        (t : Address) (e : TransferEvent) (b : Bool)
        → Keeps P (handle_transfer_event c tx r row t e b)
    unfolding handle_transfer_event
    handle_transfer_event_Stable t e b =
        search (keeps_rules, move_tokens_Stable, record_sale_Stable, st.transaction) depth 9

  module _ (property_id distribution_id rent : ℕ) (h : TxHash) (t : ℕ) where
    insert_payouts_Stable :
        (es : List InvestorPaidEvent) (s : Store)
        → P s
        → P (insert_payouts property_id distribution_id rent h t es s).1
    unfolding insert_payouts
    insert_payouts_Stable [] s p = p
    insert_payouts_Stable (e ∷ es) s p = insert_payouts_Stable es _ (st.payout _ s p)

    backfill_share_Stable :
        (x : Share) (s : Store)
        → P s
        → P (backfill_share property_id distribution_id rent h t x s).1
    unfolding backfill_share
    backfill_share_Stable x s p = ground (
      arith,
      st.payout
          (payout_row property_id distribution_id rent h t x
            (claim_status property_id x.investor t s))
          s p,
    )

    backfill_shares_Stable :
        (xs : List Share) (s : Store)
        → P s
        → P (backfill_shares property_id distribution_id rent h t xs s).1
    unfolding backfill_shares
    backfill_shares_Stable [] s p = p
    backfill_shares_Stable (x ∷ xs) s p = backfill_shares_Stable xs _ (backfill_share_Stable x s p)

  module _ (c : Chain) (tx : Tx) (r : Receipt) (row : PropertyRow) where
    backfill_Stable :
        (d a t : ℕ) (s : Store)
        → P s
        → P (backfill_investor_payout_rows_for_distribution c row.id d a tx.hash t s).1
    unfolding backfill_investor_payout_rows_for_distribution
    backfill_Stable d a t s p = elim (Bool-cases (eqb a 0)) [
      | inl e ↦ rw e p
      | inr e ↦ rw e (
          backfill_shares_Stable row.id d a tx.hash t (get_rent_distribution_breakdown c row.id a s)
            s p)
    ]

    write_payouts_Stable :
        (d a t : ℕ) (es : List InvestorPaidEvent) (s : Store)
        → P s
        → P (write_payouts c tx r row d a t es s)
    unfolding write_payouts
    write_payouts_Stable d a t es s p =
        if_Stable c tx r row (eqb (insert_payouts row.id d a tx.hash t es s).0 0 && truthy a) _ _
          (backfill_Stable d a t _ (insert_payouts_Stable row.id d a tx.hash t es s p))
          (insert_payouts_Stable row.id d a tx.hash t es s p)

    payment_Stable : (f : Store → RentPaymentRow) → Keeps P (λ s. upsert_rent_payment (f s) s)
    payment_Stable f = record { at = λ s p. st.payment (f s) s p }

    distribution_Stable : (f : Store → DistributionRow) → Keeps P (λ s. upsert_distribution (f s) s)
    distribution_Stable f = record { at = λ s p. st.distribution (f s) s p }

    pub handle_rent_events_Stable :
        (e : RentPaidEvent) (paid : List InvestorPaidEvent)
        (distributed : List RentDistributedEvent)
        → Keeps P (handle_rent_events c tx r row e paid distributed)
    unfolding handle_rent_events
    handle_rent_events_Stable e paid distributed =
        search
          (
            keeps_rules, payment_Stable, distribution_Stable, write_payouts_Stable, st.tenant,
            st.rental, st.transaction,
          )
          depth 12

    pub handle_reward_claim_event_Stable :
        (e : RewardsClaimedEvent) → Keeps P (handle_reward_claim_event c tx r row e)
    unfolding handle_reward_claim_event
    handle_reward_claim_event_Stable e = search (keeps_rules, st.marks, st.transaction) depth 9
