-- ===== src/Payroll/Net/Again.antt =====
-- core/payroll_fractional_leave.py: the end of `_recompute_statutory_and_net`, a second copy of the
-- steps of Payroll/Net that looks at no release.
use hidden_oasis_staff_payro.Common.{
  ℕ, ◌+◌, ◌-◌, min, ltb, leb, none, some, List, [], ◌∷◌, if◌then◌else◌, sub_ℕ,
}
use hidden_oasis_staff_payro.Statutory.Withholding.{compute_semi_monthly_withholding_tax}
use hidden_oasis_staff_payro.Payroll.Store.{Advance}
use hidden_oasis_staff_payro.Payroll.Advances.{deductible_advances}
use hidden_oasis_staff_payro.Payroll.Net.{Pay, NetPay}

-- `result.tax`
unfoldable pub tax_again : Pay → ℕ
tax_again p =
    if ltb 0 p.gross_pay
    then (if p.benefits_tax
        then (let contributions = p.sss_ee + p.philhealth_ee + p.pagibig_ee in
            compute_semi_monthly_withholding_tax (sub_ℕ p.gross_pay contributions))
        else 0)
    else 0

unfoldable pub due_again : Pay → ℕ
unfolding tax_again
due_again p = p.sss_ee + p.philhealth_ee + p.pagibig_ee + tax_again p + p.other_deductions

-- The deduction after a row: the rest of the capacity caps the amount.
unfoldable pub after_row : ℕ → Advance → ℕ → ℕ
after_row ca_capacity ca ca_deduction =
    let scheduled : ℕ = elim ca.custom_next_deduction [
      | none ↦ ca.repayment_per_cutoff
      | some raw ↦ raw
    ] in
    if leb scheduled 0
    then ca_deduction
    else if leb ca_capacity ca_deduction
    then ca_deduction
    else ca_deduction + min (min ca.outstanding_balance scheduled) (ca_capacity - ca_deduction)

-- `for ca in ca_rows`
unfoldable pub deduct_again : ℕ → List Advance → ℕ → ℕ
unfolding after_row
deduct_again ca_capacity [] ca_deduction = ca_deduction
deduct_again ca_capacity (ca ∷ ca_rows) ca_deduction =
    deduct_again ca_capacity ca_rows (after_row ca_capacity ca ca_deduction)

unfoldable pub recompute_net : ℕ → Pay → List Advance → NetPay
unfolding due_again deduct_again
recompute_net employee p advances =
    let due = due_again p in
    let ca = deduct_again (p.gross_pay - due) (deductible_advances employee advances) 0 in
    let total = due + ca in
    record {
      tax = tax_again p;
      cash_advance_deduction = ca;
      total_deductions = total;
      net_pay = sub_ℕ p.gross_pay total;
    }
