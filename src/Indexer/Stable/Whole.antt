-- ===== src/Indexer/Stable/Whole.antt =====
-- Predicates on the store along `reconcile_transaction`.
use web3_real_estate.Base.{
  ℕ, List, [], ◌∷◌, Result, ok, err, Bool-cases, Option-cases, inl, inr, eqb, ◌&&◌, is_some, get_or,
  nat_eq,
}
use web3_real_estate.Base.Keyed.{find}
use web3_real_estate.Base.Keeps.{
  Keeps, After, After-option, Keeps-bind, Keeps-pure, Keeps-if, keeps_rules,
}
use web3_real_estate.Indexer.Rows.{
  Store, PropertyRow, Address, EventName, TxHash, Failure, InvestmentRow, zero_address,
}
use web3_real_estate.Indexer.Chain.{
  Chain, Tx, Receipt, InvestmentEvent, TransferEvent, RentPaidEvent, InvestorPaidEvent,
  RentDistributedEvent, RewardsClaimedEvent,
}
use web3_real_estate.Indexer.Reconcile.{
  Summary, record_counted, investments_loop, log_transfers, transfers_loop, read_investment_id,
  token_branch, token_events, rent_paid_step, log_investor_paid, log_rent_distributed, claim_step,
  claims_loop, rent_branch, rent_events, reconcile_body, settle, succeeded, reconcile_transaction,
  property_by_token, resolve_property,
}
use web3_real_estate.Indexer.Stable.{
  Stable, handle_investment_event_Stable, handle_transfer_event_Stable, handle_rent_events_Stable,
  handle_reward_claim_event_Stable,
}

module _ {P : Store → Type 0} (st : Stable P) where
  module _ (c : Chain) (tx : Tx) (r : Receipt) where
    record_counted_Stable :
        (i : ℕ) (a : Address) (name : EventName) (sum : Summary)
        → Keeps P (record_counted c tx r i a name sum)
    unfolding record_counted
    record_counted_Stable i a name sum = record {
      at = λ s h. st.event tx.hash i r.block_number a name s h;
    }

    investments_loop_Stable :
        (row : PropertyRow) (t : Address) (es : List InvestmentEvent) (sum : Summary)
        → Keeps P (investments_loop c tx r row t es sum)
    unfolding investments_loop
    investments_loop_Stable row t [] sum = search keeps_rules
    investments_loop_Stable row t (e ∷ es) sum =
        let rest = investments_loop_Stable row t es in
        search (keeps_rules, record_counted_Stable, handle_investment_event_Stable, rest) depth 8

    log_transfers_Stable :
        (es : List TransferEvent) (sum : Summary) → Keeps P (log_transfers c tx r es sum)
    unfolding log_transfers
    log_transfers_Stable [] sum = search keeps_rules
    log_transfers_Stable (e ∷ es) sum =
        let rest = log_transfers_Stable es in search (keeps_rules, record_counted_Stable, rest)

    transfers_loop_Stable :
        (row : PropertyRow) (t : Address) (es : List TransferEvent) (sum : Summary)
        → Keeps P (transfers_loop c tx r row t es sum)
    unfolding transfers_loop
    transfers_loop_Stable row t [] sum = search keeps_rules
    transfers_loop_Stable row t (e ∷ es) sum =
        let rest = transfers_loop_Stable row t es in
        search (keeps_rules, record_counted_Stable, handle_transfer_event_Stable, rest) depth 8

    log_investor_paid_Stable :
        (es : List InvestorPaidEvent) (sum : Summary) → Keeps P (log_investor_paid c tx r es sum)
    unfolding log_investor_paid
    log_investor_paid_Stable [] sum = search keeps_rules
    log_investor_paid_Stable (e ∷ es) sum =
        let rest = log_investor_paid_Stable es in search (keeps_rules, record_counted_Stable, rest)

    log_rent_distributed_Stable :
        (es : List RentDistributedEvent) (sum : Summary)
        → Keeps P (log_rent_distributed c tx r es sum)
    unfolding log_rent_distributed
    log_rent_distributed_Stable [] sum = search keeps_rules
    log_rent_distributed_Stable (e ∷ es) sum =
        let rest = log_rent_distributed_Stable es in
        search (keeps_rules, record_counted_Stable, rest)

    read_investment_id_Stable : (sum : Summary) → Keeps P (read_investment_id c tx r sum)
    unfolding read_investment_id
    read_investment_id_Stable sum = record {
      at = λ s h.
          elim (Option-cases
            (find (λ (x : InvestmentRow). x.deposit_tx_hash) tx.hash s.investments)) [
              | inl e ↦ rw (e, read_investment_id) h
              | inr (x, e) ↦ rw (e, read_investment_id) h
            ];
    }

    token_branch_Stable :
        (row : PropertyRow) (t : Address) (es : List InvestmentEvent) (sum : Summary)
        → Keeps P (token_branch c tx r row t es sum)
    unfolding token_branch
    token_branch_Stable row t [] sum = transfers_loop_Stable row t r.transfer_events sum
    token_branch_Stable row t (e ∷ es) sum =
        search
          (keeps_rules, investments_loop_Stable, log_transfers_Stable, read_investment_id_Stable)

    token_events_Stable : (sum : Summary) → Keeps P (token_events c tx r sum)
    unfolding token_events
    token_events_Stable sum = record {
      at = λ s h. After-option P tx.to_address _ _ h λ token.
          After-option P (property_by_token token s.properties) _ _ h
            λ row. (token_branch_Stable row token r.investment_events sum).at s h;
    }

    rent_paid_step_Stable :
        (es : List RentPaidEvent) (sum : Summary) → Keeps P (rent_paid_step c tx r es sum)
    unfolding rent_paid_step
    rent_paid_step_Stable [] sum = record { at = λ s h. h }
    rent_paid_step_Stable (e ∷ _) sum = record {
      at = λ s h. After-option P (resolve_property c e.property_id s.properties) _ _ h λ row.
          (Keeps-bind _ _ (record_counted_Stable e.log_index e.address EventName.rent_paid sum)
              λ counted.
                Keeps-bind _ _ (handle_rent_events_Stable st c tx r row e _ _)
                  λ rent. Keeps-pure _).at
            s h;
    }

    claim_step_Stable :
        (e : RewardsClaimedEvent) (sum : Summary) → Keeps P (claim_step c tx r e sum)
    unfolding claim_step
    claim_step_Stable e sum = record {
      at = λ s h. After-option P (resolve_property c e.property_id s.properties) _ _ h λ row.
          (Keeps-bind _ _
              (record_counted_Stable e.log_index e.address EventName.rewards_claimed sum)
              λ counted.
                Keeps-bind _ _ (handle_reward_claim_event_Stable st c tx r row e)
                  λ claim. Keeps-pure _).at
            s h;
    }

    claims_loop_Stable :
        (es : List RewardsClaimedEvent) (sum : Summary) → Keeps P (claims_loop c tx r es sum)
    unfolding claims_loop
    claims_loop_Stable [] sum = search keeps_rules
    claims_loop_Stable (e ∷ es) sum =
        let rest = claims_loop_Stable es in search (keeps_rules, claim_step_Stable, rest)

    rent_branch_Stable : (sum : Summary) → Keeps P (rent_branch c tx r sum)
    unfolding rent_branch
    rent_branch_Stable sum =
        search
          (
            keeps_rules, rent_paid_step_Stable, log_investor_paid_Stable,
            log_rent_distributed_Stable, claims_loop_Stable,
          )
          depth 9

    rent_events_Stable : (sum : Summary) → Keeps P (rent_events c tx r sum)
    unfolding rent_events
    rent_events_Stable sum = record {
      at = λ s h. After-option P c.rent_distribution_address _ _ h λ address.
          (Keeps-if (eqb (get_or tx.to_address zero_address) address && is_some tx.to_address) _ _
              (rent_branch_Stable sum) (Keeps-pure sum)).at
            s h;
    }

    reconcile_body_Stable : Keeps P (reconcile_body c tx r)
    unfolding reconcile_body
    reconcile_body_Stable = search (keeps_rules, token_events_Stable, rent_events_Stable)

  settle_Stable :
      {A : Type 0} (s : Store) (m : Result Failure (A × Store)) → P s → After P m → P (settle s m).1
  settle_Stable s (ok (a, s')) h k = k
  settle_Stable s (err e) h k = h

  pub reconcile_Stable :
      (c : Chain) (tx_hash : TxHash) (s : Store) → P s → P (reconcile_transaction c tx_hash s).1
  unfolding reconcile_transaction
  reconcile_Stable c tx_hash s h = elim (Option-cases (c.get_transaction tx_hash)) [
    | inl e ↦ rw (e, reconcile_transaction) h
    | inr (tx, e) ↦ elim (Option-cases (c.get_receipt tx_hash)) [
      | inl e' ↦ rw (e, e', reconcile_transaction) h
      | inr (r, e') ↦ elim (Bool-cases (succeeded r)) [
        | inl good ↦
            rw (e, reconcile_transaction)
              (rw (e', reconcile_transaction)
                (rw good (settle_Stable s _ h ((reconcile_body_Stable c tx r).at s h))))
        | inr bad ↦ rw (e, reconcile_transaction) (rw (e', reconcile_transaction) (rw bad h))
      ]
    ]
  ]
