-- ===== src/RentRoutes/Refusals.antt =====
-- What `confirm_rent_payment` of backend/api/routers/rent.py has checked when it answers, and what
-- it leaves when it refuses.
use web3_real_estate.Base.{
  ℕ, ◌≡◌, refl, Bool, true, false, ◌&&◌, eqb, get_or, is_some, Option, none, some, List, [], ◌∷◌,
  arith, Option-cases, inl, inr, nat_eq, Result, ok, err,
}
use web3_real_estate.Base.Keyed.{find}
use web3_real_estate.Indexer.RentHandlers.{RentSummary, payment_key}
use web3_real_estate.Indexer.Rows.{Address, TxHash, zero_address, PropertyRow, Store, Failure}
use web3_real_estate.Indexer.Chain.{Chain, Tx, Receipt, RentPaidEvent}
use web3_real_estate.Indexer.Writes.{get_or_create_tenant_id}
use web3_real_estate.Indexer.Reconcile.{succeeded}
use web3_real_estate.Rent.Eligibility.{tenant_may_pay_rent}
use web3_real_estate.Yield.{Rpc, World}
use web3_real_estate.RentRoutes.{
  rent_fields, User, Site, HttpError, Answer, may_pay_role, enforce_self_or_property_owner, guard,
  refuse, property_of,
}
use web3_real_estate.RentRoutes.Payments.{
  Confirmation, index_payment, confirmation, confirm_checked, confirm_rent_payment,
}

-- An error for which the route stops before it sends or commits anything.
abbrev pub IsRefusal : HttpError → Type 0
IsRefusal HttpError.server_error = ⊥
IsRefusal _ = Unit {0}

-- A refusal leaves the world as it was.
record Refuses {A : Type 0} (w : World) (r : Answer A) : Type 0 where
  leaves : (e : HttpError) → IsRefusal e → r.0 ≡ err e → r.1 ≡ w

module _ {A : Type 0} (w : World) where
  refuse-Refuses : (e : HttpError) → Refuses {A = A} w (refuse e w)
  refuse-Refuses e = record { leaves = λ e' h k. refl }

  guard-Refuses :
      (b : Bool) (e : HttpError) (next : Answer A) → Refuses w next → Refuses w (guard b e w next)
  guard-Refuses true e next h = h
  guard-Refuses false e next h = refuse-Refuses e

  option-Refuses :
      {B : Type 0} (o : Option B) (e : HttpError) (f : B → Answer A)
      → ((b : B) → Refuses w (f b))
      → Refuses w (elim o as (λ _. Answer A) [ none ↦ refuse e w | some b ↦ f b ])
  option-Refuses none e f h = refuse-Refuses e
  option-Refuses (some b) e f h = h b

  list-Refuses :
      {B : Type 0} (l : List B) (e : HttpError) (f : B → Answer A)
      → ((b : B) → Refuses w (f b))
      → Refuses w (elim l as (λ _. Answer A) [ [] ↦ refuse e w | b ∷ _ ↦ f b ])
  list-Refuses [] e f h = refuse-Refuses e
  list-Refuses (b ∷ bs) e f h = h b

ruleset refusal_rules = (refuse-Refuses, guard-Refuses, option-Refuses, list-Refuses)

module _ (c : Chain) (rpc : Rpc) (site : Site) where
  confirmation_fails :
      (tx_hash amount : ℕ) (w : World) (e : HttpError)
      → (confirmation c rpc site tx_hash amount w).0 ≡ err e
      → e ≡ HttpError.server_error
  confirmation_fails tx_hash amount w e h =
      elim (Option-cases (find payment_key tx_hash w.store.rent_payments)) [
        | inl f ↦ unfold confirmation in ground (arith, h, f)
        | inr (r, f) ↦ absurd (unfold confirmation in ground (arith, h, f))
      ]

  not_refused : (e : HttpError) → e ≡ HttpError.server_error → IsRefusal e → ⊥
  not_refused HttpError.server_error f h = h
  not_refused HttpError.bad_request f h = absurd (ground (arith, f))
  not_refused HttpError.payment_required f h = absurd (ground (arith, f))
  not_refused HttpError.forbidden f h = absurd (ground (arith, f))
  not_refused HttpError.not_found f h = absurd (ground (arith, f))
  not_refused HttpError.conflict f h = absurd (ground (arith, f))
  not_refused HttpError.bad_gateway f h = absurd (ground (arith, f))

  -- After the handler, only the error 500 is left.
  indexed :
      (w : World) (r : Result Failure (RentSummary × Store))
      (f : RentSummary → Store → Answer Confirmation)
      → ((x : RentSummary) (s : Store) (e : HttpError)
          → (f x s).0 ≡ err e
          → e ≡ HttpError.server_error)
      → Refuses w (elim r as (λ _. Answer Confirmation) [
        | err e ↦ refuse HttpError.server_error w
        | ok (x, s) ↦ f x s
      ])
  indexed w (err e) f h = refuse-Refuses w HttpError.server_error
  indexed w (ok (x, s)) f h = record { leaves = λ e i k. absurd (not_refused e (h x s e k) i) }

  index_payment-Refuses :
      (tx : Tx) (receipt : Receipt) (row : PropertyRow) (event : RentPaidEvent) (s : Store)
      (w : World)
      → Refuses w (index_payment c rpc site tx receipt row event s w)
  index_payment-Refuses tx receipt row event s w =
      unfold index_payment in indexed w _ _ (λ summary s'. confirmation_fails tx.hash tx.value _)

  confirm_checked-Refuses :
      (p : ℕ) (row : PropertyRow) (wallet : Address) (tx_hash : TxHash) (w : World) (s : Store)
      → Refuses w (confirm_checked c rpc site p row wallet tx_hash w s)
  unfolding confirm_checked
  confirm_checked-Refuses p row wallet tx_hash w s =
      option-Refuses w (c.get_receipt tx_hash) _ _ λ receipt.
        guard-Refuses w (succeeded receipt) _ _ (
          option-Refuses w (c.get_transaction tx_hash) _ _ λ tx.
            guard-Refuses w (eqb tx.from_address wallet) _ _ (
              option-Refuses w c.rent_distribution_address _ _ λ address.
                guard-Refuses w
                  (eqb (get_or tx.to_address zero_address) address && is_some tx.to_address) _ _
                  (list-Refuses w receipt.rent_paid_events _ _ λ event.
                    guard-Refuses w (eqb event.property_id p) _ _
                      (index_payment-Refuses tx receipt row event s w))))

  -- A request to confirm a rent payment that is refused, with whatever answer but the error 500,
  -- leaves the database and the contract as they were.
  pub confirm_rent_payment_refused :
      (user : User) (p : ℕ) (wallet : Address) (tx_hash : TxHash) (w : World) (e : HttpError)
      → IsRefusal e
      → (confirm_rent_payment c rpc site user p wallet tx_hash w).0 ≡ err e
      → (confirm_rent_payment c rpc site user p wallet tx_hash w).1 ≡ w
  unfolding confirm_rent_payment
  confirm_rent_payment_refused user p wallet tx_hash w =
      (guard-Refuses w (may_pay_role user.role) _ _ (
        guard-Refuses w (enforce_self_or_property_owner user wallet) _ _ (
          option-Refuses w (property_of p w) _ _ λ row. guard-Refuses w (site.is_active p) _ _ (
            guard-Refuses w
              (tenant_may_pay_rent
                (rent_fields site (get_or_create_tenant_id wallet w.store).1 p wallet))
              _ _ (confirm_checked-Refuses p row wallet tx_hash w _))))).leaves
