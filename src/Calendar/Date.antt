-- ===== src/Calendar/Date.antt =====
-- Python's `datetime.date` as the payroll code uses it: fields, comparison, `replace(day=1)`,
-- `calendar.monthrange`, and a step of `timedelta(days=1)` either way. A year is any number here;
-- Python raises past the years 1 to 9999: Calendar/Cutoff models that, and the theorem on Segments
-- leaves the last year out.
use hidden_oasis_staff_payro.Common.{
  ℕ, ◌+◌, ◌-◌, ◌*◌, ◌%◌, ◌≤◌, Bool, not, ◌&&◌, ◌||◌, ltb, leb, ◌==◌, if◌then◌else◌,
}

pub record Date : Type 0 where
  pub year : ℕ
  pub month : ℕ
  pub day : ℕ

unfoldable pub is_leap : ℕ → Bool
is_leap y = (y % 4 == 0) && (not (y % 100 == 0) || (y % 400 == 0))

-- `monthrange(year, month)[1]`
unfoldable pub days_in_month : ℕ → ℕ → ℕ
unfolding is_leap
days_in_month y m =
    if (m == 4) || (m == 6) || (m == 9) || (m == 11)
    then 30
    else if not (m == 2)
    then 31
    else if is_leap y
    then 29
    else 28

-- `date(year, month, day)`
abbrev pub date : ℕ → ℕ → ℕ → Date
date year month day = record { day = day; month = month; year = year }

-- `a <= b`: dates compare by year, then month, then day.
unfoldable pub leb_date : Date → Date → Bool
leb_date a b =
    if a.year == b.year
    then (if a.month == b.month then leb a.day b.day else ltb a.month b.month)
    else ltb a.year b.year

-- `d.replace(day=1)`
abbrev pub first_of_month : Date → Date
first_of_month d = record d { day = 1 }

abbrev pub last_of_month : Date → Date
last_of_month d = record d { day = days_in_month d.year d.month }

-- `min(a, b)`
unfoldable pub min_date : Date → Date → Date
min_date a b = if leb_date a b then a else b

-- `d + timedelta(days=1)`
unfoldable pub next_day : Date → Date
next_day d =
    if ltb d.day (days_in_month d.year d.month)
    then record d { day = d.day + 1 }
    else if ltb d.month 12
    then date d.year (d.month + 1) 1
    else date (d.year + 1) 1 1

-- `d - timedelta(days=1)`
unfoldable pub previous_day : Date → Date
previous_day d =
    if ltb 1 d.day
    then record d { day = d.day - 1 }
    else if ltb 1 d.month
    then date d.year (d.month - 1) (days_in_month d.year (d.month - 1))
    else date (d.year - 1) 12 31

-- What a `date` object guarantees.
pub record IsDate (d : Date) : Type 0 where
  pub year_pos : 1 ≤ d.year
  pub year_bound : d.year ≤ 9999
  pub month_pos : 1 ≤ d.month
  pub month_bound : d.month ≤ 12
  pub day_pos : 1 ≤ d.day
  pub day_bound : d.day ≤ days_in_month d.year d.month

-- Months counted from year 0.
abbrev pub month_index : Date → ℕ
month_index d = d.year * 12 + d.month

-- A number that orders dates: no month has more than 31 days.
abbrev pub day_key : Date → ℕ
day_key d = month_index d * 32 + d.day
