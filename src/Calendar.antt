-- ===== src/Calendar.antt =====
-- The proleptic Gregorian calendar of Python's `datetime` and `calendar`, as the program uses it.
use web3_real_estate.Base.{
  ℕ, ◌+◌, ◌-◌, ◌*◌, ◌/◌, ◌%◌, Bool, ◌&&◌, ◌||◌, not, eqb, ltb, leb, if◌then◌else◌,
}

-- `calendar.isleap`
pub is_leap : ℕ → Bool
is_leap year = eqb (year % 4) 0 && (not (eqb (year % 100) 0) || eqb (year % 400) 0)

-- `calendar.monthrange(year, month)[1]`
unfoldable pub days_in_month : ℕ → ℕ → ℕ
unfolding is_leap
days_in_month year month =
    if eqb month 2
    then (if is_leap year then 29 else 28)
    else if eqb month 4 || eqb month 6 || eqb month 9 || eqb month 11
    then 30
    else 31

pub record Date : Type 0 where
  pub year : ℕ
  pub month : ℕ
  pub day : ℕ

-- The date of `datetime.utcfromtimestamp`: days since 1970-01-01 are counted in eras of 400 years
-- that begin on a first of March.
unfoldable pub utc_date : ℕ → Date
utc_date seconds =
    let days = seconds / 86400 + 719468 in
    let era = days / 146097 in
    let day_of_era = days % 146097 in
    let year_of_era =
      (day_of_era - day_of_era / 1460 + day_of_era / 36524 - day_of_era / 146096) / 365 in
    let day_of_year = day_of_era - (365 * year_of_era + year_of_era / 4 - year_of_era / 100) in
    let shifted = (5 * day_of_year + 2) / 153 in
    let month = if ltb shifted 10 then shifted + 3 else shifted - 9 in
    record {
      year = year_of_era + era * 400 + (if leb month 2 then 1 else 0);
      month = month;
      day = day_of_year - (153 * shifted + 2) / 5 + 1;
    }
