-- ===== src/Rent/Eligibility.antt =====
-- Who may pay the rent of a property: backend/services/tenant_rent_eligibility.py, and the filter
-- of the available rentals in backend/services/tenant_catalog.py.
use web3_real_estate.Base.{
  ℕ, Bool, true, false, ◌&&◌, not, eqb, ltb, if◌then◌else◌, Option, none, some, List, [], ◌∷◌, ◌==◌,
}
use web3_real_estate.Base.Text.{Text, text_eq, lower, strip}
use web3_real_estate.Rent.Cycle.{
  DateTime, Payment, Period, property_rent_period_status, tenant_rent_period_status,
}

-- `tenant_rentals` joined with the wallet of its tenant; `created_at` in seconds
pub record Rental : Type 0 where
  pub tenant_wallet : Text
  pub property_id : ℕ
  pub active : Bool
  pub created_at : ℕ

-- The most recent active rental of the property.
unfoldable pub get_property_active_rental_holder : ℕ → List Rental → Option Rental
get_property_active_rental_holder property_id [] = none
get_property_active_rental_holder property_id (r ∷ rs) =
    let rest = get_property_active_rental_holder property_id rs in
    if r.active && eqb r.property_id property_id
    then (elim rest [
      | none ↦ some r
      | some q ↦ if ltb r.created_at q.created_at then some q else some r
    ])
    else rest

unfoldable pub wallet_matches : Text → Text → Bool
wallet_matches a b =
    let left = lower (strip a) in let right = lower (strip b) in not (left == []) && left == right

pub record RentFields : Type 0 where
  pub period : Period
  pub can_pay_rent : Bool
  pub rent_claimed_by_other_tenant : Bool
  pub tenant_paid_current_cycle : Bool

-- Somebody else rents the property; an empty wallet is no tenant.
unfoldable pub claimed_by_other : Option Rental → Text → Bool
claimed_by_other none tenant_wallet = false
claimed_by_other (some holder) tenant_wallet =
    not (tenant_wallet == []) && not (wallet_matches holder.tenant_wallet tenant_wallet)

unfoldable pub build_tenant_property_rent_fields :
    List Payment → List Rental → ℕ → Text → DateTime → RentFields
build_tenant_property_rent_fields payments rentals property_id tenant_wallet now =
    let period = property_rent_period_status payments property_id now in
    let claimed =
      claimed_by_other (get_property_active_rental_holder property_id rentals) tenant_wallet in
    record {
      period = period;
      can_pay_rent =
          if period.current_cycle_paid
          then false
          else if claimed
          then false
          else period.can_pay_rent;
      rent_claimed_by_other_tenant = claimed;
      tenant_paid_current_cycle =
          if tenant_wallet == []
          then false
          else (tenant_rent_period_status payments tenant_wallet property_id
              now).current_cycle_paid;
    }

unfoldable pub tenant_may_pay_rent : RentFields → Bool
tenant_may_pay_rent fields = fields.can_pay_rent

unfoldable pub tenant_property_is_visible : RentFields → Bool → Bool
tenant_property_is_visible fields active_rental =
    if active_rental
    then true
    else if fields.tenant_paid_current_cycle
    then true
    else tenant_may_pay_rent fields

-- Why the rent cannot be paid: the three kinds of `pay_rent_blocked_message`.
pub data Blocked : Type 0 where
  other_tenant already_paid unavailable : Blocked

unfoldable pub pay_rent_blocked_message : RentFields → Blocked
pay_rent_blocked_message fields =
    if fields.rent_claimed_by_other_tenant
    then Blocked.other_tenant
    else if fields.period.current_cycle_paid
    then Blocked.already_paid
    else Blocked.unavailable

-- A property of the tenant catalog, with what the filter reads.
pub record CatalogEntry : Type 0 where
  pub fields : RentFields
  pub has_investors : Bool
  pub active_rental : Bool
  pub rent_enabled : Bool

unfoldable pub filter_tenant_dashboard_available : List CatalogEntry → List CatalogEntry
filter_tenant_dashboard_available [] = []
filter_tenant_dashboard_available (prop ∷ props) =
    let out = filter_tenant_dashboard_available props in
    if not prop.has_investors
    then out
    else if prop.active_rental
    then out
    else if not prop.fields.can_pay_rent
    then out
    else if not prop.rent_enabled
    then out
    else prop ∷ out
