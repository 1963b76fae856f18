-- ===== src/RentRoutes.antt =====
-- What the routes of backend/api/routers/rent.py share: users and roles, the errors and the answers.
-- Wallets come as valid addresses.
use web3_real_estate.Base.{
  ℕ, ◌+◌, ◌*◌, ◌%◌, Bool, true, false, ◌&&◌, ◌||◌, not, leb, eqb, truthy, if◌then◌else◌, Option,
  none, some, get_or, is_some, List, [], ◌∷◌, nat_eq, Result, ok, err,
}
use web3_real_estate.Base.Keyed.{find}
use web3_real_estate.Base.Int.{pos}
use web3_real_estate.Indexer.Rows.{
  Address, TxHash, zero_address, PropertyRow, RentPaymentRow, RentalRow, WalletRow, DistributionRow,
  PayoutRow, ClaimStatus, claimable, claimed, Store, Failure,
}
use web3_real_estate.Indexer.Chain.{
  Chain, Tx, Receipt, RentPaidEvent, InvestorPaidEvent, RentDistributedEvent, RewardsClaimedEvent,
}
use web3_real_estate.Indexer.Writes.{get_or_create_tenant_id}
use web3_real_estate.Indexer.RentHandlers.{
  RentSummary, handle_rent_events, payment_key, distribution_key,
}
use web3_real_estate.Indexer.Reconcile.{
  Summary, reconcile_transaction, succeeded, matching_paid, matching_distributed,
}
use web3_real_estate.Base.Text.{Text}
use web3_real_estate.Calendar.{utc_date}
use web3_real_estate.Rent.Cycle.{DateTime, Payment}
use web3_real_estate.Rent.Eligibility.{Rental, RentFields, build_tenant_property_rent_fields}
use web3_real_estate.Indexer.Payouts.{wallet_of}
use web3_real_estate.Funding.{
  Node, WalletFundingCheck, FundingError, check_tenant_can_pay_monthly_rent,
}
use web3_real_estate.Yield.{Rpc, World, get_rent_property_info, get_property_claimable_rewards}
use web3_real_estate.Yield.Backfill.{Credit, backfill_missed_rent_accruals, seen}
use web3_real_estate.Yield.Investors.{sync_investors_to_contract}
use web3_real_estate.Yield.Payouts.{pending, finalize_investor_rent_yield_after_payment}
use web3_real_estate.Yield.Setup.{
  SetupError, require_property_token, ensure_rent_property_registered, set_monthly_rent,
  sync_rent_amount_to_contract, ensure_rent_chain_ready_for_payment,
}
use web3_real_estate.RentContract.{PropertyInfo, count}
pub mod Setting
pub mod Payments
pub mod Rewards
pub mod Refusals

-- The roles of backend/api/security.py, and the signed-in user.
pub data Role : Type 0 where
  property_owner investor tenant : Role

pub record User : Type 0 where
  pub role : Role
  pub wallet : Address

-- `HTTPException` by its status code: 400, 402, 403, 404, 409, 500 and 502.
pub data HttpError : Type 0 where
  bad_request payment_required forbidden not_found conflict server_error bad_gateway : HttpError

unfoldable pub is_owner : Role → Bool
is_owner Role.property_owner = true
is_owner _ = false

-- `require_role("tenant", "property_owner")` and `require_role("investor", "property_owner")`
unfoldable pub may_pay_role : Role → Bool
may_pay_role Role.investor = false
may_pay_role _ = true

unfoldable pub may_claim_role : Role → Bool
may_claim_role Role.tenant = false
may_claim_role _ = true

unfoldable pub enforce_self_or_property_owner : User → Address → Bool
enforce_self_or_property_owner user wallet = is_owner user.role || eqb wallet user.wallet

-- What the routes read besides the indexer's tables: the columns `is_active` and `owner_wallet` of
-- a property, the text of an address, the time, and the services' checks.
pub record Site : Type 0 where
  pub is_active : ℕ → Bool
  pub owner_wallet : ℕ → Option Address
  pub wallet_text : Address → Text
  pub now : DateTime
  pub is_security_token : Address → Bool
  pub mismatch : Bool
  pub node : Node
  -- the RewardsAccrued events of a receipt
  pub rewards_accrued : Receipt → List InvestorPaidEvent

-- `datetime.utcfromtimestamp` of whole seconds
abbrev pub utc_time : ℕ → DateTime
utc_time seconds = record { date = utc_date seconds; time = seconds % 86400 * 1000000 }

abbrev pub tenant_wallet_text : Site → ℕ → List WalletRow → Text
tenant_wallet_text site id tenants = elim (wallet_of id tenants) [
  | none ↦ []
  | some wallet ↦ site.wallet_text wallet
]

-- `rent_payments` with the wallets of `tenants`
unfoldable pub payments_of : Site → List WalletRow → List RentPaymentRow → List Payment
payments_of site tenants [] = []
payments_of site tenants (r ∷ rs) =
    record {
      tenant_wallet = tenant_wallet_text site r.tenant_id tenants;
      property_id = r.property_id;
      payment_date = utc_time r.payment_date;
      confirmed = r.confirmed;
    }
    ∷ payments_of site tenants rs

-- `tenant_rentals` with the wallets of `tenants`. The rows stand with the newest first, and their
-- number in that order is their time.
unfoldable pub rentals_of : Site → List WalletRow → List RentalRow → List Rental
rentals_of site tenants [] = []
rentals_of site tenants (r ∷ rs) =
    let rest = rentals_of site tenants rs in
    record {
      tenant_wallet = tenant_wallet_text site r.tenant_id tenants;
      property_id = r.property_id;
      active = r.active;
      created_at = elim rest [ [] ↦ 0 | newest ∷ _ ↦ newest.created_at + 1 ];
    }
    ∷ rest

-- The rent fields of a tenant at the time of the request.
unfoldable pub rent_fields : Site → Store → ℕ → Address → RentFields
rent_fields site s p wallet =
    build_tenant_property_rent_fields (payments_of site s.tenants s.rent_payments)
      (rentals_of site s.tenants s.rentals) p (site.wallet_text wallet) site.now

-- `HTTPException`s keep their status, other exceptions become 500.
unfoldable pub setup_status : SetupError → HttpError
setup_status SetupError.rent_exceeds_limit = HttpError.conflict
setup_status SetupError.deployer_mismatch = HttpError.conflict
setup_status SetupError.no_token = HttpError.bad_request
setup_status SetupError.no_security_token = HttpError.bad_request
setup_status _ = HttpError.server_error

-- The answer of a route, and the world after its commit or rollback.
abbrev pub Answer : Type 0 → Type 0
Answer A = Result HttpError A × World

abbrev pub refuse : {A : Type 0} → HttpError → World → Answer A
refuse e w = (err e, w)

-- A guard of a route: the database is as the request found it.
abbrev pub guard : {A : Type 0} → Bool → HttpError → World → Answer A → Answer A
guard true e w next = next
guard false e w next = (err e, w)

abbrev pub property_of : ℕ → World → Option PropertyRow
property_of p w = find (λ (r : PropertyRow). r.id) p w.store.properties
