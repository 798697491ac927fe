-- ===== src/Payroll/Net.antt =====
-- The end of the computation of a pay: core/payroll_engine.py, `compute_employee_payroll` from the
-- withholding tax on. Amounts are in centavos; the gross pay, the contributions and the other
-- deductions are given. Payroll/Net/Again models the second copy of these steps.
pub mod Again
pub mod Taken
mod Tests
use hidden_oasis_staff_payro.Common.{
  ℕ, zero, suc, ◌+◌, ◌-◌, min, Bool, true, false, ◌&&◌, ◌||◌, Option, none, some, List, [], ◌∷◌,
  ltb, leb, if◌then◌else◌, ℤ, pos, sub_ℕ, Text, is_empty, ltb_text,
}
use hidden_oasis_staff_payro.Statutory.Withholding.{compute_semi_monthly_withholding_tax}
use hidden_oasis_staff_payro.Payroll.Store.{Advance}
use hidden_oasis_staff_payro.Payroll.Advances.{deductible_advances}
use hidden_oasis_staff_payro.Payroll.Receipt.{text_or}
use hidden_oasis_staff_payro.Payroll.Manual.{leading}

-- The amounts that the earlier steps leave.
pub record Pay : Type 0 where
  pub gross_pay : ℕ
  pub sss_ee : ℕ
  pub philhealth_ee : ℕ
  pub pagibig_ee : ℕ
  pub other_deductions : ℕ
  pub benefits_tax : Bool

pub record NetPay : Type 0 where
  pub tax : ℕ
  pub cash_advance_deduction : ℕ
  pub total_deductions : ℕ
  pub net_pay : ℤ

unfoldable pub withheld : Pay → ℕ
withheld p =
    if ltb 0 p.gross_pay && p.benefits_tax
    then compute_semi_monthly_withholding_tax
        (sub_ℕ p.gross_pay (p.sss_ee + p.philhealth_ee + p.pagibig_ee))
    else 0

unfoldable pub statutory_and_manual : Pay → ℕ
unfolding withheld
statutory_and_manual p = p.sss_ee + p.philhealth_ee + p.pagibig_ee + withheld p + p.other_deductions

-- The funds are not issued by the end of the period.
unfoldable pub unissued : Text → Advance → Bool
unissued period_end ca =
    let released_at = text_or ca.released_at in
    ca.release_confirmation_required
    && (if is_empty released_at then true else ltb_text period_end (leading 10 released_at))

unfoldable pub scheduled_amount : Advance → ℕ
scheduled_amount ca = elim ca.custom_next_deduction [
  | none ↦ ca.repayment_per_cutoff
  | some raw ↦ raw
]

-- The deduction after a row that the loop does not pass over for its release.
abbrev pub next_deduction : ℕ → ℕ → ℕ → ℕ → ℕ
next_deduction outstanding schedule ca_capacity ca_deduction =
    if leb schedule 0 || leb ca_capacity ca_deduction
    then ca_deduction
    else ca_deduction + min (min outstanding schedule) (ca_capacity - ca_deduction)

-- `for ca in ca_rows`
unfoldable pub deduct_scheduled : Text → ℕ → List Advance → ℕ → ℕ
unfolding unissued
deduct_scheduled period_end ca_capacity [] ca_deduction = ca_deduction
deduct_scheduled period_end ca_capacity (ca ∷ ca_rows) ca_deduction =
    deduct_scheduled period_end ca_capacity ca_rows (
      if unissued period_end ca
      then ca_deduction
      else next_deduction ca.outstanding_balance (scheduled_amount ca) ca_capacity ca_deduction)

unfoldable pub compute_net : Text → ℕ → Pay → List Advance → NetPay
unfolding statutory_and_manual withheld deduct_scheduled
compute_net period_end employee p advances =
    let due = statutory_and_manual p in
    let ca =
      deduct_scheduled period_end (p.gross_pay - due) (deductible_advances employee advances) 0 in
    record {
      tax = withheld p;
      cash_advance_deduction = ca;
      total_deductions = due + ca;
      net_pay = sub_ℕ p.gross_pay (due + ca);
    }
