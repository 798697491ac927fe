-- ===== src/Calendar/Order.antt =====
-- The comparison of dates is that of their keys, so that date arithmetic is arithmetic.
use hidden_oasis_staff_payro.Common.{ℕ, ◌+◌, ◌≤◌, ◌<◌, ◌≡◌, ◌↔◌, true, arith, leb}
use hidden_oasis_staff_payro.Calendar.Date.{
  Date, IsDate, days_in_month, leb_date, next_day, first_of_month, last_of_month, day_key,
}

pub days_in_month_bounds : (y m : ℕ) → (28 ≤ days_in_month y m) × (days_in_month y m ≤ 31)
unfolding days_in_month
days_in_month_bounds y m = ground arith

pub leb_date-key : (a b : Date) → IsDate a → IsDate b → leb_date a b ≡ leb (day_key a) (day_key b)
unfolding leb_date
leb_date-key a b va vb =
    ground (arith, days_in_month_bounds a.year a.month, days_in_month_bounds b.year b.month)

pub leb_date→le : (a b : Date) → IsDate a → IsDate b → leb_date a b ≡ true → day_key a ≤ day_key b
leb_date→le a b va vb h = ground (arith, leb_date-key a b va vb)

pub le→leb_date : (a b : Date) → IsDate a → IsDate b → day_key a ≤ day_key b → leb_date a b ≡ true
le→leb_date a b va vb h = ground (arith, leb_date-key a b va vb)

-- A date is determined by its key.
pub Date_eq_of_key : (a b : Date) → IsDate a → IsDate b → day_key a ≡ day_key b → a ≡ b
Date_eq_of_key a b va vb h =
    ground (arith, days_in_month_bounds a.year a.month, days_in_month_bounds b.year b.month)

pub first_of_month-IsDate : (d : Date) → IsDate d → IsDate (first_of_month d)
first_of_month-IsDate d v = ground (arith, days_in_month_bounds d.year d.month)

pub last_of_month-IsDate : (d : Date) → IsDate d → IsDate (last_of_month d)
last_of_month-IsDate d v = ground (arith, days_in_month_bounds d.year d.month)

-- A day before the last year is followed by a date.
pub next_day-IsDate : (d : Date) → IsDate d → d.year < 9999 → IsDate (next_day d)
unfolding next_day
next_day-IsDate d v h =
    ground (arith, days_in_month_bounds d.year (d.month + 1), days_in_month_bounds (d.year + 1) 1)

-- The day after a date is the next one: no date stands between.
pub next_day-le_iff :
    (d e : Date)
    → IsDate d
    → IsDate e
    → (day_key (next_day d) ≤ day_key e) ↔ (day_key d < day_key e)
unfolding next_day
next_day-le_iff d e v w = (
  ground (arith, days_in_month_bounds d.year d.month, days_in_month_bounds e.year e.month),
  ground (arith, days_in_month_bounds d.year d.month, days_in_month_bounds e.year e.month),
)
