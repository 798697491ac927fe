-- ===== src/Payroll/Dated/Tests.antt =====
-- Two days of a cutoff that crosses the end of January (core/dated_earnings.py).
use hidden_oasis_staff_payro.Common.{◌≡◌, refl, List, arith, [], ◌∷◌, pos, ◌+ℤ◌, ◌-ℤ◌}
use hidden_oasis_staff_payro.Calendar.Date.{
  date, leb_date, min_date, next_day, days_in_month, is_leap,
}
use hidden_oasis_staff_payro.Calendar.Segments.{same_date, segments_from, calendar_month_segments}
use hidden_oasis_staff_payro.Payroll.Money.{money, half_up_cents}
use hidden_oasis_staff_payro.Payroll.Money.Nearest.{IsNear}
use hidden_oasis_staff_payro.Payroll.Dated.{
  DatedAmount, DatedEarningsLedger, checked, refused, crosses_months, sum_dated, add_at, add_known,
  add, add_single_month_span, add_months, gross_by_month, last_date, absorb, reconcile_totals,
  reconcile,
}
use hidden_oasis_staff_payro.Payroll.Dated.Reconciled.{reconcile-exact}

-- There are a thousand parts to the centavo: 500.004 pesos in January, 300.00 in February.
abbrev one_day : DatedEarningsLedger
one_day = record {
  period_start = date 2026 1 26;
  period_end = date 2026 2 10;
  amounts = record { key = date 2026 1 30; amount = pos 50000400 } ∷ [];
}

abbrev two_days : DatedEarningsLedger
two_days = record one_day {
  amounts =
      record { key = date 2026 1 30; amount = pos 50000400 }
      ∷ record { key = date 2026 2 2; amount = pos 30000000 }
      ∷ [];
}

second_day : add 1000 (date 2026 2 2) (pos 30000000) one_day ≡ checked two_days
unfolding add add_at leb_date same_date
second_day = refl

crossing :
    add_single_month_span 1000 (date 2026 1 28) (date 2026 2 3) (pos 100) one_day
    ≡ refused crosses_months
unfolding add_single_month_span leb_date min_date
crossing = refl

abbrev months : List DatedAmount
months =
    record { key = date 2026 1 1; amount = pos 50000 }
    ∷ record { key = date 2026 2 1; amount = pos 30003 }
    ∷ []

-- January is rounded, and three centavos go to February.
reconciled_months : reconcile 1000 (pos 80003000) two_days ≡ checked months
unfolding reconcile reconcile_totals gross_by_month add_months add_known absorb last_date sum_dated
    calendar_month_segments segments_from leb_date min_date next_day same_date days_in_month is_leap
    ◌+ℤ◌ ◌-ℤ◌ money half_up_cents
reconciled_months = refl

-- Two amounts of 10.004 pesos in two months are 0.058 from the 19.95 that they reconcile with.
drifting :
    reconcile 1000 (pos 1995000) (record one_day {
      amounts =
          record { key = date 2026 1 30; amount = pos 1000400 }
          ∷ record { key = date 2026 2 2; amount = pos 1000400 }
          ∷ [];
    })
    ≡ checked (
        record { key = date 2026 1 1; amount = pos 1000 }
        ∷ record { key = date 2026 2 1; amount = pos 995 }
        ∷ [])
unfolding reconcile reconcile_totals gross_by_month add_months add_known absorb last_date sum_dated
    calendar_month_segments segments_from leb_date min_date next_day same_date days_in_month is_leap
    ◌+ℤ◌ ◌-ℤ◌ money half_up_cents
drifting = refl

reconcile-exact_example :
    (sum_dated months ≡ money 1000 (pos 80003000))
    × IsNear 1000 12 (money 1000 (pos 80003000)) (sum_dated two_days.amounts)
reconcile-exact_example =
    reconcile-exact 1000 (pos 80003000) two_days months (omega arith) reconciled_months
