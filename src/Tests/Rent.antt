-- ===== src/Tests/Rent.antt =====
-- Runs of the rent theorems: the last day of January is followed by the end of February.
use web3_real_estate.Base.{◌≡◌, refl, ◌⊎◌, true, false, List, [], ◌∷◌, arith}
use web3_real_estate.Calendar.{Date, days_in_month}
use web3_real_estate.Base.Text.{Text}
use web3_real_estate.Rent.Cycle.{
  DateTime, Payment, before, date_before, same_date, following, next_month, add_one_calendar_month,
}
use web3_real_estate.Rent.Eligibility.{
  Rental, wallet_matches, build_tenant_property_rent_fields, tenant_may_pay_rent,
}
use web3_real_estate.Rent.Due.{IsDate, next_month-IsDate, add_one_calendar_month_monotone}
use web3_real_estate.Rent.Payable.{Covered, IsNewest, Unclaimed, tenant_may_pay_rent_lem}

abbrev january_30 : Date
january_30 = record { year = 2023; month = 1; day = 30 }

abbrev january_31 : Date
january_31 = record { year = 2023; month = 1; day = 31 }

january_30-IsDate : IsDate january_30
unfolding days_in_month
january_30-IsDate = ground arith

january_31-IsDate : IsDate january_31
unfolding days_in_month
january_31-IsDate = ground arith

next_month-IsDate_example :
    IsDate (next_month january_31) × (date_before january_31 (next_month january_31) ≡ true)
next_month-IsDate_example = next_month-IsDate january_31 january_31-IsDate

abbrev evening : DateTime
evening = record { date = january_30; time = 82800 }

abbrev after_midnight : DateTime
after_midnight = record { date = january_31; time = 3600 }

ordered : before evening after_midnight ≡ true
unfolding before date_before same_date
ordered = refl

-- The later payment is due earlier, on the same day.
due_times_swap :
    before (add_one_calendar_month after_midnight) (add_one_calendar_month evening) ≡ true
unfolding before date_before same_date add_one_calendar_month next_month following days_in_month
due_times_swap = refl

add_one_calendar_month_monotone_example :
    (date_before (add_one_calendar_month after_midnight).date (add_one_calendar_month evening).date
      ≡ false)
    × ((add_one_calendar_month after_midnight).date.day ≡ 31
        → before (add_one_calendar_month evening) (add_one_calendar_month after_midnight) ≡ true)
add_one_calendar_month_monotone_example =
    add_one_calendar_month_monotone evening after_midnight january_30-IsDate january_31-IsDate
      ordered

abbrev wallet : Text
wallet = 48 ∷ 120 ∷ 49 ∷ []

abbrev paid_on : Date → Payment
paid_on d = record {
  tenant_wallet = wallet;
  property_id = 1;
  payment_date = record { date = d; time = 5 };
  confirmed = true;
}

abbrev payments : List Payment
payments = paid_on january_31 ∷ paid_on january_30 ∷ []

abbrev rental : Rental
rental = record { tenant_wallet = wallet; property_id = 1; active = true; created_at = 7 }

tenant_may_pay_rent_lem_example :
    let now : DateTime = record { date = record { year = 2023; month = 2; day = 28 }; time = 6 } in
    let rentals = rental ∷ [] in
    let fields = build_tenant_property_rent_fields payments rentals 1 wallet now in
    (tenant_may_pay_rent fields ≡ true → (Covered payments 1 now → ⊥) × Unclaimed rentals 1 wallet)
    × ((Covered payments 1 now → ⊥)
        → (wallet ≡ [])
          ⊎ ((r : Rental) → IsNewest 1 rentals r → wallet_matches r.tenant_wallet wallet ≡ true)
        → tenant_may_pay_rent fields ≡ true)
tenant_may_pay_rent_lem_example =
    tenant_may_pay_rent_lem payments (rental ∷ []) 1 wallet
      (record { date = record { year = 2023; month = 2; day = 28 }; time = 6 })
