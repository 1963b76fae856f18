-- ===== src/RentRoutes/Payments.antt =====
-- The routes of the tenant: `prepare_rent_payment` and `confirm_rent_payment` of
-- backend/api/routers/rent.py.
use web3_real_estate.Base.{
  ℕ, ◌&&◌, not, eqb, truthy, if◌then◌else◌, Option, none, some, get_or, is_some, List, [], ◌∷◌,
  nat_eq, ok, err,
}
use web3_real_estate.Base.Keyed.{find}
use web3_real_estate.Base.Int.{pos}
use web3_real_estate.Indexer.Rows.{Address, TxHash, zero_address, PropertyRow, Store}
use web3_real_estate.Indexer.Chain.{Chain, Tx, Receipt, RentPaidEvent, InvestorPaidEvent}
use web3_real_estate.Indexer.Writes.{get_or_create_tenant_id}
use web3_real_estate.Indexer.RentHandlers.{handle_rent_events, payment_key, distribution_key}
use web3_real_estate.Indexer.Reconcile.{succeeded, matching_paid, matching_distributed}
use web3_real_estate.Rent.Eligibility.{tenant_may_pay_rent}
use web3_real_estate.Funding.{check_tenant_can_pay_monthly_rent}
use web3_real_estate.Yield.{Rpc, World, get_rent_property_info}
use web3_real_estate.Yield.Backfill.{seen}
use web3_real_estate.Yield.Payouts.{finalize_investor_rent_yield_after_payment}
use web3_real_estate.Yield.Setup.{
  SetupError, require_property_token, ensure_rent_chain_ready_for_payment,
}
use web3_real_estate.RentRoutes.{
  rent_fields, Role, User, HttpError, may_pay_role, enforce_self_or_property_owner, Site,
  setup_status, Answer, refuse, guard, property_of,
}

unfoldable pub wallets_of : List InvestorPaidEvent → List Address
wallets_of [] = []
wallets_of (e ∷ es) = e.investor ∷ wallets_of es

unfoldable pub or_events : List InvestorPaidEvent → List InvestorPaidEvent → List InvestorPaidEvent
or_events [] other = other
or_events (e ∷ es) other = e ∷ es

pub record Confirmation : Type 0 where
  pub rent_payment_id : ℕ
  pub distribution_id : Option ℕ
  pub amount_wei : ℕ
  pub investors_paid : ℕ
  pub total_distributed_wei : ℕ

module _ (c : Chain) (rpc : Rpc) (site : Site) where
  -- The last step of `prepare_rent_payment`: the wallet covers the rent, if a wallet was given.
  unfoldable pub payable : Option Address → ℕ → World → Answer ℕ
  payable none rent w = (ok rent, w)
  payable (some wallet) rent w =
      elim (check_tenant_can_pay_monthly_rent site.node wallet (pos rent)) [
        | err e ↦ refuse HttpError.payment_required w
        | ok check ↦ guard check.funded HttpError.payment_required w (ok rent, w)
      ]

  unfoldable pub prepared : Option Address → ℕ → World → Answer ℕ
  prepared wallet p w = elim (get_rent_property_info rpc p w) [
    | none ↦ refuse HttpError.bad_gateway w
    | some info ↦ guard info.active HttpError.conflict w (
        guard (truthy info.monthly_rent_wei) HttpError.conflict w
          (payable wallet info.monthly_rent_wei w))
  ]

  -- `tenant_wallet or (user.wallet_address if user.role == "tenant" else None)`
  unfoldable pub effective_wallet : User → Option Address → Option Address
  effective_wallet user (some wallet) = some wallet
  effective_wallet user none = elim user.role [ Role.tenant ↦ some user.wallet | _ ↦ none ]

  unfoldable pub wallet_may_pay : User → Option Address → ℕ → World → Option HttpError
  wallet_may_pay user none p w = none
  wallet_may_pay user (some wallet) p w =
      if enforce_self_or_property_owner user wallet
      then (if tenant_may_pay_rent (rent_fields site w.store p wallet)
          then none
          else some HttpError.conflict)
      else some HttpError.forbidden

  -- `except HTTPException: raise`, and 409 for the other exceptions of the synchronisation
  unfoldable pub sync_status : SetupError → HttpError
  sync_status SetupError.no_token = HttpError.bad_request
  sync_status SetupError.no_security_token = HttpError.bad_request
  sync_status _ = HttpError.conflict

  unfoldable pub prepare_checked : PropertyRow → Option Address → ℕ → World → Answer ℕ
  prepare_checked row wallet p w =
      guard (not site.mismatch) HttpError.conflict w
        (elim (ensure_rent_chain_ready_for_payment c rpc site.is_security_token site.mismatch row p
          w) [ err e ↦ refuse (sync_status e) w | ok (added, w') ↦ prepared wallet p w' ])

  unfoldable pub prepare_request : User → ℕ → Option Address → World → Answer ℕ
  prepare_request user p tenant_wallet w =
      let wallet = effective_wallet user tenant_wallet in
      guard (may_pay_role user.role) HttpError.forbidden w (elim (property_of p w) [
        | none ↦ refuse HttpError.not_found w
        | some row ↦
            guard (site.is_active p) HttpError.not_found w
              (elim (require_property_token c rpc site.is_security_token site.mismatch row) [
                | some e ↦ refuse (setup_status e) w
                | none ↦ elim (wallet_may_pay user wallet p w) [
                  | some e ↦ refuse e w
                  | none ↦ prepare_checked row wallet p w
                ]
              ])
      ])

  -- `prepare_rent_payment`: the rent to pay. The route commits nothing, so its connection is closed
  -- with a rollback, while the transactions that the synchronisation sent stay.
  unfoldable pub prepare_rent_payment : User → ℕ → Option Address → World → Answer ℕ
  prepare_rent_payment user p tenant_wallet w =
      let (answer, w') = prepare_request user p tenant_wallet w in
      (answer, record w' { store = w.store })

  -- What `confirm_rent_payment` answers after its commit.
  unfoldable pub confirmation : TxHash → ℕ → World → Answer Confirmation
  confirmation tx_hash amount_wei w = elim (find payment_key tx_hash w.store.rent_payments) [
    | none ↦ refuse HttpError.server_error w
    | some payment ↦
        let found = find distribution_key tx_hash w.store.distributions in
        (
          ok (record {
            rent_payment_id = payment.id;
            distribution_id = elim found [ none ↦ none | some d ↦ some d.id ];
            amount_wei = amount_wei;
            investors_paid = elim found [ none ↦ 0 | some d ↦ d.investor_count ];
            total_distributed_wei = elim found [ none ↦ 0 | some d ↦ d.total_distributed ];
          }),
          w,
        )
  ]

  -- The events are handled and the yield is credited for the value of the transaction. `w` is what a
  -- rollback leaves, `s` the tables with the tenant.
  unfoldable pub index_payment :
      Tx → Receipt → PropertyRow → RentPaidEvent → Store → World → Answer Confirmation
  index_payment tx receipt row event s w =
      let paid =
        or_events (matching_paid c tx receipt event.property_id receipt.investor_paid_events)
          (matching_paid c tx receipt event.property_id (site.rewards_accrued receipt)) in
      elim (handle_rent_events (seen c rpc w.contract) tx receipt row event paid
          (matching_distributed c tx receipt event.property_id receipt.rent_distributed_events) s)
        as (λ _. Answer Confirmation) [
          | err e ↦ refuse HttpError.server_error w
          | ok (summary, s') ↦
              confirmation tx.hash tx.value
                (finalize_investor_rent_yield_after_payment c rpc row.id summary.distribution_id
                  tx.value tx.hash summary.distributed_at (wallets_of paid)
                  (record w { store = s' })).1
        ]

  -- The checks of the receipt and the transaction, in their order.
  unfoldable pub confirm_checked :
      ℕ → PropertyRow → Address → TxHash → World → Store → Answer Confirmation
  confirm_checked p row tenant_wallet tx_hash w s = elim (c.get_receipt tx_hash) [
    | none ↦ refuse HttpError.server_error w
    | some receipt ↦
        guard (succeeded receipt) HttpError.bad_request w (elim (c.get_transaction tx_hash) [
          | none ↦ refuse HttpError.server_error w
          | some tx ↦
              guard (eqb tx.from_address tenant_wallet) HttpError.bad_request w
                (elim c.rent_distribution_address [
                  | none ↦ refuse HttpError.server_error w
                  | some address ↦
                      guard
                        (eqb (get_or tx.to_address zero_address) address && is_some tx.to_address)
                        HttpError.bad_request w
                        (elim receipt.rent_paid_events [
                          | [] ↦ refuse HttpError.bad_request w
                          | event ∷ _ ↦
                              guard (eqb event.property_id p) HttpError.bad_request w
                                (index_payment tx receipt row event s w)
                        ])
                ])
        ])
  ]

  unfoldable pub confirm_rent_payment : User → ℕ → Address → TxHash → World → Answer Confirmation
  confirm_rent_payment user p tenant_wallet tx_hash w =
      guard (may_pay_role user.role) HttpError.forbidden w (
        guard (enforce_self_or_property_owner user tenant_wallet) HttpError.forbidden w
          (elim (property_of p w) [
            | none ↦ refuse HttpError.not_found w
            | some row ↦ guard (site.is_active p) HttpError.not_found w (
                let s = (get_or_create_tenant_id tenant_wallet w.store).1 in
                guard (tenant_may_pay_rent (rent_fields site s p tenant_wallet)) HttpError.conflict
                  w (confirm_checked p row tenant_wallet tx_hash w s))
          ]))
