-- ===== src/Rent/Cycle.antt =====
-- Billing periods of one calendar month: backend/api/rent_cycle.py.
use web3_real_estate.Base.{
  ℕ, ◌+◌, min, Bool, true, false, ◌&&◌, ◌||◌, not, eqb, ltb, if◌then◌else◌, Option, none, some,
  List, [], ◌∷◌, ◌==◌,
}
use web3_real_estate.Base.Text.{Text, text_eq, lower}
use web3_real_estate.Calendar.{Date, days_in_month}

-- A naive `datetime`: the date, and the microseconds since midnight.
pub record DateTime : Type 0 where
  pub date : Date
  pub time : ℕ

unfoldable pub date_before : Date → Date → Bool
date_before a b =
    ltb a.year b.year
    || eqb a.year b.year && (ltb a.month b.month || eqb a.month b.month && ltb a.day b.day)

unfoldable pub same_date : Date → Date → Bool
same_date a b = eqb a.year b.year && eqb a.month b.month && eqb a.day b.day

-- `a < b`
unfoldable pub before : DateTime → DateTime → Bool
before a b = date_before a.date b.date || same_date a.date b.date && ltb a.time b.time

-- The month after a month, with its year.
unfoldable pub following : Date → ℕ × ℕ
following d = if eqb d.month 12 then (d.year + 1, 1) else (d.year, d.month + 1)

unfoldable pub next_month : Date → Date
next_month d =
    let (year, month) = following d in
    record { year = year; month = month; day = min d.day (days_in_month year month) }

unfoldable pub add_one_calendar_month : DateTime → DateTime
add_one_calendar_month dt = record { date = next_month dt.date; time = dt.time }

-- `rent_payments` joined with the wallet of its tenant
pub record Payment : Type 0 where
  pub tenant_wallet : Text
  pub property_id : ℕ
  pub payment_date : DateTime
  pub confirmed : Bool

-- `ORDER BY payment_date DESC LIMIT 1` among the confirmed payments that a test selects
unfoldable pub latest : (Payment → Bool) → List Payment → Option Payment
latest select [] = none
latest select (p ∷ ps) =
    let rest = latest select ps in
    if p.confirmed && select p
    then (elim rest [
      | none ↦ some p
      | some q ↦ if before p.payment_date q.payment_date then some q else some p
    ])
    else rest

unfoldable pub get_last_confirmed_rent_payment_for_property : ℕ → List Payment → Option Payment
get_last_confirmed_rent_payment_for_property property_id =
    latest (λ p. eqb p.property_id property_id)

unfoldable pub get_last_confirmed_rent_payment_by_wallet : Text → ℕ → List Payment → Option Payment
get_last_confirmed_rent_payment_by_wallet wallet property_id =
    latest (λ p. lower p.tenant_wallet == lower wallet && eqb p.property_id property_id)

pub record Period : Type 0 where
  pub current_cycle_paid : Bool
  pub can_pay_rent : Bool
  pub next_due_at : DateTime
  pub last_paid_at : Option DateTime

unfoldable pub compute_rent_period_status : Option Payment → DateTime → Period
compute_rent_period_status none now = record {
  current_cycle_paid = false;
  can_pay_rent = true;
  next_due_at = now;
  last_paid_at = none;
}
compute_rent_period_status (some last) now =
    let next_due = add_one_calendar_month last.payment_date in
    let paid = before now next_due in
    record {
      current_cycle_paid = paid;
      can_pay_rent = not paid;
      next_due_at = next_due;
      last_paid_at = some last.payment_date;
    }

unfoldable pub property_rent_period_status : List Payment → ℕ → DateTime → Period
property_rent_period_status payments property_id now =
    compute_rent_period_status (get_last_confirmed_rent_payment_for_property property_id payments)
      now

unfoldable pub tenant_rent_period_status : List Payment → Text → ℕ → DateTime → Period
tenant_rent_period_status payments wallet property_id now =
    compute_rent_period_status
      (get_last_confirmed_rent_payment_by_wallet wallet property_id payments) now
