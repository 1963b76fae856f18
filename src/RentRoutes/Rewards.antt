-- ===== src/RentRoutes/Rewards.antt =====
-- The routes of the investor: `prepare_claim_rewards` and `confirm_claim_rewards` of
-- backend/api/routers/rent.py.
use web3_real_estate.Base.{
  ℕ, ◌+◌, Bool, false, ◌&&◌, leb, eqb, truthy, if◌then◌else◌, Option, none, some, get_or, is_some,
  List, [], ◌∷◌, nat_eq, Result, ok, err,
}
use web3_real_estate.Indexer.Rows.{
  Address, TxHash, zero_address, PayoutRow, ClaimStatus, claimable, claimed,
}
use web3_real_estate.Indexer.Chain.{Chain, Tx, Receipt, RewardsClaimedEvent}
use web3_real_estate.Indexer.Reconcile.{reconcile_transaction, succeeded}
use web3_real_estate.Yield.{Rpc, World, get_property_claimable_rewards}
use web3_real_estate.Yield.Backfill.{seen}
use web3_real_estate.Yield.Payouts.{pending}
use web3_real_estate.RentRoutes.{
  User, HttpError, may_claim_role, enforce_self_or_property_owner, Site, Answer, refuse, guard,
  property_of,
}

-- `mark_claimed` gave these rows the hash of the claim.
unfoldable pub claimed_by : TxHash → ClaimStatus → Bool
claimed_by tx_hash claimable = false
claimed_by tx_hash (claimed h at) = eqb h tx_hash

unfoldable pub claimed_rows : ℕ → Address → TxHash → List PayoutRow → ℕ
claimed_rows p wallet tx_hash [] = 0
claimed_rows p wallet tx_hash (r ∷ rs) =
    (if eqb r.property_id p && eqb r.investor_wallet wallet && claimed_by tx_hash r.claim
      then 1
      else 0)
    + claimed_rows p wallet tx_hash rs

unfoldable pub matching_claims : ℕ → Address → List RewardsClaimedEvent → List RewardsClaimedEvent
matching_claims p wallet [] = []
matching_claims p wallet (e ∷ es) =
    let rest = matching_claims p wallet es in
    if eqb e.property_id p && eqb e.investor wallet then e ∷ rest else rest

unfoldable pub claimed_sum : List RewardsClaimedEvent → ℕ
claimed_sum [] = 0
claimed_sum (e ∷ es) = e.amount + claimed_sum es

module _ (c : Chain) (rpc : Rpc) (site : Site) where
  -- `max(chain_claimable_wei, db_pending)`
  unfoldable pub claimable_wei : ℕ → Address → World → Option ℕ
  claimable_wei p wallet w = elim (get_property_claimable_rewards rpc p wallet w) [
    | none ↦ none
    | some on_chain ↦
        let due = pending p wallet w.store.payouts in
        some (if leb due on_chain then on_chain else due)
  ]

  unfoldable pub prepare_claim_rewards : User → ℕ → Address → World → Result HttpError ℕ
  prepare_claim_rewards user p wallet w =
      if may_claim_role user.role && enforce_self_or_property_owner user wallet
      then elim (property_of p w) [
        | none ↦ err HttpError.not_found
        | some row ↦ elim (claimable_wei p wallet w) [
          | none ↦ err HttpError.server_error
          | some amount ↦ if truthy amount then ok amount else err HttpError.bad_request
        ]
      ]
      else err HttpError.forbidden

  -- After the checks: the transaction is reconciled and its rows are counted. The answer is the
  -- amount of the claim and the number of rows.
  unfoldable pub reconcile_claim :
      ℕ → Address → Tx → List RewardsClaimedEvent → World → Answer (ℕ × ℕ)
  reconcile_claim p wallet tx claims w =
      let (r, s) = reconcile_transaction (seen c rpc w.contract) tx.hash w.store in
      let w' : World = record w { store = s } in
      elim r as (λ _. Answer (ℕ × ℕ)) [
        | err e ↦ refuse HttpError.server_error w'
        | ok summary ↦
            guard (truthy (claimed_rows p wallet tx.hash s.payouts)) HttpError.server_error w'
              (ok (claimed_sum claims, claimed_rows p wallet tx.hash s.payouts), w')
      ]

  unfoldable pub claim_events : ℕ → Address → Tx → Receipt → World → Answer (ℕ × ℕ)
  claim_events p wallet tx receipt w =
      elim (matching_claims p wallet receipt.rewards_claimed_events) [
        | [] ↦ refuse HttpError.bad_request w
        | e ∷ es ↦ reconcile_claim p wallet tx (e ∷ es) w
      ]

  unfoldable pub claim_checked : ℕ → Address → TxHash → World → Answer (ℕ × ℕ)
  claim_checked p wallet tx_hash w = elim (c.get_receipt tx_hash) [
    | none ↦ refuse HttpError.server_error w
    | some receipt ↦
        guard (succeeded receipt) HttpError.bad_request w (elim (c.get_transaction tx_hash) [
          | none ↦ refuse HttpError.server_error w
          | some tx ↦
              guard (eqb tx.from_address wallet) HttpError.bad_request w
                (elim c.rent_distribution_address [
                  | none ↦ refuse HttpError.server_error w
                  | some address ↦
                      guard
                        (eqb (get_or tx.to_address zero_address) address && is_some tx.to_address)
                        HttpError.bad_request w (claim_events p wallet tx receipt w)
                ])
        ])
  ]

  unfoldable pub confirm_claim_rewards : User → ℕ → Address → TxHash → World → Answer (ℕ × ℕ)
  confirm_claim_rewards user p wallet tx_hash w =
      guard (may_claim_role user.role) HttpError.forbidden w (
        guard (enforce_self_or_property_owner user wallet) HttpError.forbidden w
          (elim (property_of p w) [
            | none ↦ refuse HttpError.not_found w
            | some row ↦ claim_checked p wallet tx_hash w
          ]))
