-- ===== src/Investments/Confirmation.antt =====
-- `confirm_investment` of backend/api/routers/investments.py.
use web3_real_estate.Base.{
  ℕ, false, ◌&&◌, not, eqb, if◌then◌else◌, Option, none, some, get_or, is_some, List, [], ◌∷◌,
  nat_eq, ok, err,
}
use web3_real_estate.Base.Keyed.{find}
use web3_real_estate.Indexer.Rows.{Address, TxHash, PropertyRow, InvestmentRow, Store}
use web3_real_estate.Indexer.Chain.{Chain, Tx}
use web3_real_estate.Indexer.Reconcile.{reconcile_transaction, succeeded}
use web3_real_estate.Yield.{Rpc, World}
use web3_real_estate.Yield.Backfill.{seen}
use web3_real_estate.Yield.Setup.{register_investor_for_property_yield}
use web3_real_estate.RentRoutes.{
  User, HttpError, Site, may_claim_role, enforce_self_or_property_owner,
}
use web3_real_estate.Investments.{AwaitingRow, Desk, Answer, refuse, guard}
use web3_real_estate.Investments.Recovery.{has_token, recover_investment_from_receipt, is_complete}

-- The prepared row by its id: one that awaits its hash, or one that has it.
pub data PreparedRow : Type 0 where
  awaits : AwaitingRow → PreparedRow
  claims : InvestmentRow → PreparedRow

unfoldable pub without : ℕ → List AwaitingRow → List AwaitingRow
without i [] = []
without i (r ∷ rs) = if eqb r.id i then rs else r ∷ without i rs

-- `UPDATE investments SET deposit_tx_hash = ... WHERE id = ... AND deposit_tx_hash IS NULL`; none where
-- the unique index on the hash refuses it.
unfoldable pub claim_hash : TxHash → AwaitingRow → Desk → Option Desk
claim_hash tx_hash row d =
    elim (find (λ (r : InvestmentRow). r.deposit_tx_hash) tx_hash d.world.store.investments) [
      | some _ ↦ none
      | none ↦
          let claimed : InvestmentRow = record {
            id = row.id;
            property_id = row.property_id;
            investor_wallet = row.investor_wallet;
            token_amount_base = row.token_amount_base;
            eth_amount_wei = row.eth_amount_wei;
            deposit_tx_hash = tx_hash;
            funded = false;
            created_at = row.created_at;
          } in
          some (record {
            world = record (d.world) {
              store = record (d.world.store) { investments = claimed ∷ d.world.store.investments };
            };
            awaiting = without row.id d.awaiting;
          })
    ]

module _ (c : Chain) (rpc : Rpc) (site : Site) where
  -- The row of the hash, after a recovery if there is none.
  unfoldable pub indexed_row : TxHash → ℕ → Store → Option InvestmentRow × Store
  indexed_row tx_hash now s =
      elim (find (λ (r : InvestmentRow). r.deposit_tx_hash) tx_hash s.investments) [
        | some row ↦ (some row, s)
        | none ↦
            let (_, s') = recover_investment_from_receipt c tx_hash now s in
            (find (λ (r : InvestmentRow). r.deposit_tx_hash) tx_hash s'.investments, s')
      ]

  -- From the reconciliation on. Errors roll back to the last commit.
  unfoldable pub confirm_indexed : TxHash → ℕ → Desk → Answer InvestmentRow
  confirm_indexed tx_hash now d =
      let (r, s) = reconcile_transaction (seen c rpc d.world.contract) tx_hash d.world.store in
      let d' : Desk = record d { world = record (d.world) { store = s } } in
      elim r as (λ _. Answer InvestmentRow) [
        | err e ↦ refuse HttpError.server_error d'
        | ok summary ↦
            let (found, s') = indexed_row tx_hash now s in
            let w : World = record (d.world) { store = s' } in
            let d'' : Desk = record d { world = w } in
            elim found as (λ _. Answer InvestmentRow) [
              | none ↦ refuse HttpError.server_error d''
              | some row ↦ guard (is_complete tx_hash row s') HttpError.server_error d'' (
                ok row,
                record d {
                  world =
                      (register_investor_for_property_yield c rpc site.is_security_token
                        site.mismatch row.property_id row.investor_wallet w).1;
                },
              )
            ]
      ]

  -- The checks against a prepared row: its owner, its property's token, the sender.
  unfoldable pub matches_prepared : User → Tx → ℕ → Address → Desk → Option HttpError
  matches_prepared user tx p wallet d =
      if not (enforce_self_or_property_owner user wallet)
      then some HttpError.forbidden
      else elim (find (λ (r : PropertyRow). r.id) p d.world.store.properties) [
        | none ↦ some HttpError.bad_request
        | some row ↦
            if has_token (get_or tx.to_address 0) row && is_some tx.to_address
            then (if eqb tx.from_address wallet then none else some HttpError.bad_request)
            else some HttpError.bad_request
      ]

  -- A row without a hash takes it first; the unique index answers 500 if another row has it.
  unfoldable pub confirm_prepared :
      User → Tx → TxHash → ℕ → PreparedRow → Desk → Answer InvestmentRow
  confirm_prepared user tx tx_hash now (PreparedRow.awaits row) d =
      elim (matches_prepared user tx row.property_id row.investor_wallet d) [
        | some e ↦ refuse e d
        | none ↦ elim (claim_hash tx_hash row d) [
          | none ↦ refuse HttpError.server_error d
          | some d' ↦ confirm_indexed tx_hash now d'
        ]
      ]
  confirm_prepared user tx tx_hash now (PreparedRow.claims row) d =
      elim (matches_prepared user tx row.property_id row.investor_wallet d) [
        | some e ↦ refuse e d
        | none ↦ confirm_indexed tx_hash now d
      ]

  unfoldable pub prepared_row : ℕ → Desk → Option PreparedRow
  prepared_row i d = elim (find (λ (r : AwaitingRow). r.id) i d.awaiting) [
    | some row ↦ some (PreparedRow.awaits row)
    | none ↦ elim (find (λ (r : InvestmentRow). r.id) i d.world.store.investments) [
      | none ↦ none
      | some row ↦ some (PreparedRow.claims row)
    ]
  ]

  unfoldable pub confirm_investment : User → ℕ → TxHash → ℕ → Desk → Answer InvestmentRow
  confirm_investment user i tx_hash now d =
      guard (may_claim_role user.role) HttpError.forbidden d (elim (c.get_receipt tx_hash) [
        | none ↦ refuse HttpError.server_error d
        | some receipt ↦
            guard (succeeded receipt) HttpError.bad_request d (elim (c.get_transaction tx_hash) [
              | none ↦ refuse HttpError.server_error d
              | some tx ↦
                  guard (is_some tx.to_address) HttpError.bad_request d (elim (prepared_row i d) [
                    | none ↦ refuse HttpError.not_found d
                    | some row ↦ confirm_prepared user tx tx_hash now row d
                  ])
            ])
      ])
