-- ===== src/Rent/Due.antt =====
-- When the next rent falls due, and what decides whether a tenant may pay.
use web3_real_estate.Base.{
  ℕ, ◌+◌, ◌≤◌, ◌≡◌, Bool, true, false, ◌&&◌, none, some, List, [], ◌∷◌, arith, Option-cases, inl,
  inr,
}
use web3_real_estate.Base.Text.{text_eq}
use web3_real_estate.Calendar.{Date, days_in_month}
use web3_real_estate.Rent.Cycle.{
  DateTime, date_before, same_date, before, following, next_month, add_one_calendar_month, Payment,
  latest,
}

-- A date of the calendar.
abbrev pub IsDate : Date → Type 0
IsDate d = (1 ≤ d.month) × (d.month ≤ 12) × (1 ≤ d.day) × (d.day ≤ days_in_month d.year d.month)

long_month : (year month : ℕ) → 28 ≤ days_in_month year month
unfolding days_in_month
long_month year month = ground arith

-- The next due date of a date of the calendar is one too, in the month that follows, and later.
pub next_month-IsDate :
    (d : Date) → IsDate d → IsDate (next_month d) × (date_before d (next_month d) ≡ true)
unfolding next_month following date_before
next_month-IsDate d h = ground (arith, long_month d.year (d.month + 1), long_month (d.year + 1) 1)

-- Of two payments, the later one has no earlier due day; and where the day of the later payment exists
-- in the month that follows it, its due time is later too.
pub add_one_calendar_month_monotone :
    (a b : DateTime)
    → IsDate a.date
    → IsDate b.date
    → before a b ≡ true
    → (date_before (add_one_calendar_month b).date (add_one_calendar_month a).date ≡ false)
      × ((add_one_calendar_month b).date.day ≡ b.date.day
          → before (add_one_calendar_month a) (add_one_calendar_month b) ≡ true)
unfolding add_one_calendar_month next_month following before date_before same_date
add_one_calendar_month_monotone a b p q h = (ground arith, λ k. ground arith)

before_irreflexive : (a : DateTime) → before a a ≡ false
unfolding before date_before same_date
before_irreflexive a = ground arith

before_trans : (a b c : DateTime) → before b a ≡ false → before c b ≡ false → before c a ≡ false
unfolding before date_before same_date
before_trans a b c h k = ground arith

before_asym : (a b : DateTime) → before a b ≡ true → before b a ≡ false
unfolding before date_before same_date
before_asym a b h = ground arith

-- No confirmed payment that the test selects is later than the time.
abbrev pub NoneAfter : (Payment → Bool) → DateTime → List Payment → Type 0
NoneAfter select t [] = Unit
NoneAfter select t (p ∷ ps) =
    (p.confirmed && select p ≡ true → before t p.payment_date ≡ false) × NoneAfter select t ps

NoneAfter-later :
    (select : Payment → Bool) (t u : DateTime) (ps : List Payment)
    → before u t ≡ false
    → NoneAfter select t ps
    → NoneAfter select u ps
NoneAfter-later select t u [] h k = tt
NoneAfter-later select t u (p ∷ ps) h k =
    ground (arith, before_trans p.payment_date t u, NoneAfter-later select t u ps)

NoneAfter-none :
    (select : Payment → Bool) (t : DateTime) (ps : List Payment)
    → latest select ps ≡ none
    → NoneAfter select t ps
unfolding latest
NoneAfter-none select t [] e = tt
NoneAfter-none select t (p ∷ ps) e = ground (arith, NoneAfter-none select t ps)

-- The payment that the query of the last payment answers is a confirmed one that the query
-- selects, and no such payment is later.
pub latest_lem :
    (select : Payment → Bool) (ps : List Payment) (p : Payment)
    → latest select ps ≡ some p
    → (p.confirmed && select p ≡ true) × NoneAfter select p.payment_date ps
unfolding latest
latest_lem select [] p e = ground arith
latest_lem select (q ∷ ps) p e = elim (Option-cases (latest select ps)) [
  | inl f ↦
      ground
        (arith, f, e, NoneAfter-none select q.payment_date ps f, before_irreflexive q.payment_date)
  | inr (r, f) ↦ ground (
    arith,
    f,
    e,
    latest_lem select ps r f,
    before_irreflexive q.payment_date,
    before_asym q.payment_date r.payment_date,
    NoneAfter-later select r.payment_date q.payment_date ps,
  )
]
