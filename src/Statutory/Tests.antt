-- ===== src/Statutory/Tests.antt =====
-- A ledger of two contribution months (core/statutory_reconciliation.py), and the withholding tax
-- (core/payroll_engine.py).
use hidden_oasis_staff_payro.Statutory.Withholding.{
  compute_semi_monthly_withholding_tax, tax_of, excess_tax,
}
use hidden_oasis_staff_payro.Statutory.Withholding.Monotone.{withholding-monotone}
use hidden_oasis_staff_payro.Common.{
  arith, ◌≡◌, ◌↔◌, ◌≤◌, ◌+◌, refl, false, [], ◌∷◌, List, pos, ◌+ℤ◌, ◌-ℤ◌, codes, ltb_text, ℕ,
}
use hidden_oasis_staff_payro.Statutory.Cent.{Decimal, cent, rounded}
use hidden_oasis_staff_payro.Statutory.Reconcile.{
  ContributionMonth, ReconciledMonth, reconciled, unordered_months, reconcile_months,
  reconcile_from, reconciled_month, closing, is_month, any_negative,
}
use hidden_oasis_staff_payro.Statutory.Reconcile.Balance.{
  sum_ℤ, due, remittance, last_balance, IsLedger, IsReconciled, reconcile-balance, reconcile_iff,
}

-- 20000.00 of taxable compensation: 937.50 and a fifth of 3333.00.
tax_of_twenty_thousand : compute_semi_monthly_withholding_tax (pos 2000000) ≡ 160410
unfolding compute_semi_monthly_withholding_tax tax_of excess_tax
tax_of_twenty_thousand = refl

withholding-monotone_example :
    (compute_semi_monthly_withholding_tax (pos 1666700)
      ≤ compute_semi_monthly_withholding_tax (pos 1666800))
    × (compute_semi_monthly_withholding_tax (pos 1666800) + 1666700
        ≤ compute_semi_monthly_withholding_tax (pos 1666700) + 1666800)
    × (compute_semi_monthly_withholding_tax (pos 1666800) ≤ 1666800)
withholding-monotone_example = withholding-monotone (pos 1666700) (pos 1666800) (omega arith)

abbrev decimal : ℕ → ℕ → Decimal
decimal c s = record { negative = false; coefficient = c; scale = s }

abbrev january : ContributionMonth
january = record {
  month = codes "2026-01";
  employee_due = decimal 1005 1;
  employer_due = decimal 200 0;
  remitted = decimal 250 0;
}

abbrev february : ContributionMonth
february = record january { month = codes "2026-02"; remitted = decimal 500125 3 }

abbrev ledger : List ContributionMonth
ledger = january ∷ february ∷ []

-- 1.005 rounds up to 1.01.
rounding : rounded 1005 3 ≡ 101
unfolding rounded
rounding = refl

unordered : reconcile_months (february ∷ january ∷ []) (decimal 0 0) ≡ unordered_months
unfolding reconcile_months reconcile_from is_month any_negative cent rounded ltb_text closing
unordered = refl

abbrev ledger_rows : List ReconciledMonth
ledger_rows =
    reconciled_month (pos 0) january ∷ reconciled_month (closing (pos 0) january) february ∷ []

ledger_done : reconcile_months ledger (decimal 0 0) ≡ reconciled ledger_rows
unfolding reconcile_months reconcile_from is_month any_negative cent rounded ltb_text
ledger_done = refl

-- 601.00 was due, 750.13 remitted: an accounting credit.
reconcile-balance_example :
    last_balance (pos 0) ledger_rows ≡ pos 0 +ℤ sum_ℤ due ledger -ℤ sum_ℤ remittance ledger
unfolding cent rounded
reconcile-balance_example = reconcile-balance ledger (decimal 0 0) ledger_rows ledger_done

reconcile_iff_example :
    IsReconciled ledger (reconcile_months ledger (decimal 0 0)) ↔ IsLedger [] ledger
reconcile_iff_example = reconcile_iff ledger (decimal 0 0)
