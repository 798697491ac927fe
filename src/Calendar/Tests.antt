-- ===== src/Calendar/Tests.antt =====
-- A cutoff over the end of a year (core/statutory_periods.py, core/payroll_cutoff_calendar.py).
use hidden_oasis_staff_payro.Common.{ℕ, ◌≡◌, refl, true, false, ◌⊎◌, List, All, arith}
use hidden_oasis_staff_payro.Calendar.Date.{
  Date, date, IsDate, leb_date, days_in_month, is_leap, next_day,
}
use hidden_oasis_staff_payro.Calendar.Segments.{Segment, calendar_month_segments, ok}
use hidden_oasis_staff_payro.Calendar.Segments.Cover.{
  segments_with, in_period, IsMonthStretch, segments-cover,
}
use hidden_oasis_staff_payro.Calendar.Cutoff.{cutoff_for_month, cutoff_containing, overflow}
use hidden_oasis_staff_payro.Calendar.Cutoff.Partition.{holds, is_edge, cutoff-partition}

abbrev opening : Date
opening = date 2025 12 31

abbrev closing : Date
closing = date 2026 2 14

opening-IsDate : IsDate opening
unfolding days_in_month is_leap
opening-IsDate = record {
  year_pos = omega arith;
  year_bound = omega arith;
  month_pos = omega arith;
  month_bound = omega arith;
  day_pos = omega arith;
  day_bound = omega arith;
}

closing-IsDate : IsDate closing
unfolding days_in_month is_leap
closing-IsDate = record {
  year_pos = omega arith;
  year_bound = omega arith;
  month_pos = omega arith;
  month_bound = omega arith;
  day_pos = omega arith;
  day_bound = omega arith;
}

in_order : leb_date opening closing ≡ true
unfolding leb_date
in_order = refl

segments-cover_example :
    (segments : List Segment) × (calendar_month_segments opening closing ≡ ok segments)
    × ((d : Date) → IsDate d → segments_with d segments ≡ in_period opening closing d)
    × All IsMonthStretch segments
segments-cover_example =
    segments-cover opening closing opening-IsDate closing-IsDate (omega arith) in_order

last_day : cutoff_containing (date 9999 12 31) ≡ overflow
unfolding cutoff_containing days_in_month is_leap next_day
last_day = refl

cutoff-partition_example :
    (((is_edge opening ≡ true) × (cutoff_containing opening ≡ overflow))
      ⊎ ((is_edge opening ≡ false) × (holds opening (cutoff_containing opening) ≡ true)))
    × ((y m half : ℕ)
        → holds opening (cutoff_for_month y m half) ≡ true
        → cutoff_containing opening ≡ cutoff_for_month y m half)
cutoff-partition_example = cutoff-partition opening opening-IsDate
