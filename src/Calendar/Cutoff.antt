-- ===== src/Calendar/Cutoff.antt =====
-- core/payroll_cutoff_calendar.py: the two payroll cutoffs of a month.
pub mod Partition
use hidden_oasis_staff_payro.Common.{ℕ, ◌+◌, ◌-◌, Bool, ◌&&◌, ◌||◌, not, leb, ◌==◌, if◌then◌else◌}
use hidden_oasis_staff_payro.Calendar.Date.{Date, date, days_in_month, next_day, previous_day}

pub record Cutoff : Type 0 where
  pub opens : Date
  pub closes : Date

-- `bad_half` and `bad_month` are the ValueErrors of the guard and of `date`, `overflow` is the
-- OverflowError of a step past the years 1 to 9999.
pub data CutoffResult : Type 0 where
  cutoff : Cutoff → CutoffResult
  bad_half bad_month overflow : CutoffResult

abbrev pub is_year : ℕ → Bool
is_year year = leb 1 year && leb year 9999

abbrev pub is_month_number : ℕ → Bool
is_month_number month = leb 1 month && leb month 12

unfoldable pub cutoff_for_month : ℕ → ℕ → ℕ → CutoffResult
unfolding previous_day
cutoff_for_month year month half =
    if not ((half == 1) || (half == 2))
    then bad_half
    else if not (is_year year && is_month_number month)
    then bad_month
    else if half == 1
    then (let opening = previous_day (date year month 1) in
        if is_year opening.year
        then cutoff (record { opens = opening; closes = date year month 14 })
        else overflow)
    else cutoff (record {
      opens = date year month 15;
      closes = date year month (days_in_month year month - 1);
    })

unfoldable pub cutoff_containing : Date → CutoffResult
cutoff_containing day =
    if day.day == days_in_month day.year day.month
    then (let following = next_day day in
        if is_year following.year
        then cutoff_for_month following.year following.month 1
        else overflow)
    else cutoff_for_month day.year day.month (if leb day.day 14 then 1 else 2)
