-- ===== src/Payroll/Apply/Tests.antt =====
-- A run that is not paid yet deducts 50.00 (core/cash_advance_payroll.py).
use hidden_oasis_staff_payro.Common.{
  ◌≡◌, refl, none, some, [], ◌∷◌, Option, codes, eq_text, normalized, strip, lstrip, rstrip, lower,
  lower_code, is_space, is_empty, has_part, starts_with, ltb_text, ◌+ℤ◌, number_text, map,
}
use hidden_oasis_staff_payro.Payroll.Receipt.{insert_repayment}
use hidden_oasis_staff_payro.Payroll.Ledger.{
  Balance, partially_repaid, Ledger, ensure_balances, balanced_advance, opened_advance,
  recalculate_balance, calculate_balance, balance_from, confirmed_new_repayments,
  find_ledger_advance, is_confirmed, next_ledger_status, opening_of, recalculated_advance,
  run_is_paid,
}
use hidden_oasis_staff_payro.Payroll.Deduct.{
  find_ledger_run, deduct_advance, insert_by_date, is_repayable, last_repayment, payroll_repayment,
  repay_advance, repayable_advances, sorted_by_date, write_repayment,
}
use hidden_oasis_staff_payro.Payroll.Apply.{
  apply_payroll_cash_advance_repayments, advance_step, deduct_advances, apply_item, apply_items,
}
use hidden_oasis_staff_payro.Payroll.Apply.Unseen.{IsUnpaid}
use hidden_oasis_staff_payro.Payroll.Apply.Unchanged.{apply-unseen}
use hidden_oasis_staff_payro.Payroll.Ledger.Tests.{advance_five}
use hidden_oasis_staff_payro.Payroll.Payment.Tests.{item}

abbrev before : Ledger
before = record {
  runs =
      record {
        id = 9;
        status = codes "Approved";
        period_end = codes "2026-05-10";
        payout_date = none;
        revision_treatment = none;
      }
      ∷ [];
  advances = advance_five ∷ [];
  repayments = [];
  next_repayment_id = 1;
}

abbrev applied : Option Ledger
applied =
    apply_payroll_cash_advance_repayments 9 none none (codes "2026-05-14") 7 (item ∷ []) before

abbrev ledger_or_before : Option Ledger → Ledger
ledger_or_before none = before
ledger_or_before (some l) = l

abbrev after : Ledger
after = ledger_or_before applied

abbrev stored : Balance
stored = record { amount = 40000; paid = 10000; balance = 30000; status = partially_repaid }

run_nine-IsUnpaid : IsUnpaid before.runs 9
unfolding run_is_paid eq_text
run_nine-IsUnpaid r h = rw (h, run_is_paid) refl

run :
    (applied ≡ some after)
    × (map (λ r. r.amount) after.repayments ≡ 5000 ∷ [])
    × (calculate_balance (ensure_balances before) 5 ≡ some stored)
unfolding eq_text strip apply_payroll_cash_advance_repayments find_ledger_run ensure_balances
    normalized balanced_advance opened_advance has_part ltb_text recalculate_balance
    calculate_balance ◌+ℤ◌ is_empty is_space lower lower_code lstrip number_text rstrip starts_with
    advance_step deduct_advances apply_item apply_items deduct_advance insert_by_date is_repayable
    last_repayment payroll_repayment repay_advance repayable_advances sorted_by_date write_repayment
    balance_from confirmed_new_repayments find_ledger_advance is_confirmed next_ledger_status
    opening_of recalculated_advance run_is_paid insert_repayment
run = (refl, refl, refl)

apply-unseen_example : calculate_balance after 5 ≡ some stored
apply-unseen_example =
    apply-unseen 9 none none (codes "2026-05-14") 7 (item ∷ []) before after 5 stored
      run_nine-IsUnpaid tt run.0 run.2
