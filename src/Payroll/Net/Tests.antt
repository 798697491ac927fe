-- ===== src/Payroll/Net/Tests.antt =====
-- A pay of 5,000.00 of an employee with one advance whose funds were not issued
-- (core/payroll_engine.py, core/payroll_fractional_leave.py).
use hidden_oasis_staff_payro.Common.{◌≡◌, refl, true, none, [], ◌∷◌, codes, is_empty, some}
use hidden_oasis_staff_payro.Statutory.Withholding.{
  compute_semi_monthly_withholding_tax, tax_of, excess_tax,
}
use hidden_oasis_staff_payro.Payroll.Store.{Advance, released}
use hidden_oasis_staff_payro.Payroll.Advances.{
  deductible_advances, is_deductible, ordered, insert_ordered,
}
use hidden_oasis_staff_payro.Payroll.Net.{
  Pay, statutory_and_manual, withheld, unissued, scheduled_amount, deduct_scheduled, compute_net,
}
use hidden_oasis_staff_payro.Payroll.Net.Again.{
  tax_again, due_again, after_row, deduct_again, recompute_net,
}

abbrev unreleased : Advance
unreleased = record {
  id = 1;
  employee_id = 3;
  amount = 100000;
  outstanding_balance = 100000;
  status = released;
  request_date = codes "2026-04-02";
  release_confirmation_required = true;
  released_at = none;
  custom_next_deduction = none;
  repayment_per_cutoff = 50000;
}

abbrev pay_of_three : Pay
pay_of_three = record {
  gross_pay = 500000;
  sss_ee = 25000;
  philhealth_ee = 12500;
  pagibig_ee = 10000;
  other_deductions = 0;
  benefits_tax = true;
}

computed :
    (compute_net (codes "2026-04-15") 3 pay_of_three (unreleased ∷ [])).cash_advance_deduction ≡ 0
unfolding compute_net deduct_scheduled unissued scheduled_amount statutory_and_manual withheld
    compute_semi_monthly_withholding_tax tax_of excess_tax deductible_advances is_deductible ordered
    insert_ordered is_empty
computed = refl

recomputed : (recompute_net 3 pay_of_three (unreleased ∷ [])).cash_advance_deduction ≡ 50000
unfolding recompute_net deduct_again after_row due_again tax_again
    compute_semi_monthly_withholding_tax tax_of excess_tax deductible_advances is_deductible ordered
    insert_ordered
recomputed = refl

abbrev issued : Advance
issued = record unreleased { released_at = some (codes "2026-04-03") }
