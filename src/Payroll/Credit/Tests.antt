-- ===== src/Payroll/Credit/Tests.antt =====
-- The advance of 400.00 of the ledger's tests is corrected to 350.00
-- (api/cash_advance_corrections.py). Of it 100.00 was paid before the ledger, and 120.00 in it.
use hidden_oasis_staff_payro.Common.{
  ℕ, ◌+◌, ◌-◌, ◌≤◌, ◌≡◌, refl, arith, none, some, [], pos, codes, strip, lstrip, rstrip, is_space,
  is_empty, eq_text,
}
use hidden_oasis_staff_payro.Payroll.Ledger.{
  LedgerAdvance, find_ledger_advance, confirmed_new_repayments, is_confirmed, run_is_paid,
  calculate_balance, recalculate_balance, ensure_balances, opened_advance, balanced_advance,
  balance_from, opening_of, next_ledger_status, recalculated_advance,
}
use hidden_oasis_staff_payro.Payroll.Ledger.Tests.{ledger}
use hidden_oasis_staff_payro.Payroll.Credit.{
  CreditBook, Correction, CorrectionResult, correction_refused, corrected, AmountCorrectionPayload,
  basis_of, corrected_advance, correction_entry, correct_recalculated, correct_cash_advance_amount,
}
use hidden_oasis_staff_payro.Payroll.Credit.Corrected.{correct-left}

abbrev book : CreditBook
book = record { ledger = ledger; corrections = []; settlements = [] }

abbrev payload : AmountCorrectionPayload
payload = record {
  corrected_amount = pos 35000;
  correction_reason = codes "encoded wrong";
  reference = none;
}

abbrev book_of : CorrectionResult → CreditBook
book_of (corrected _ s) = s
book_of (correction_refused _) = book

abbrev result : CorrectionResult
result = correct_cash_advance_amount 5 payload (some (codes "Ana")) 9 book

-- Of 350.00, 220.00 is applied, and 230.00 is left.
abbrev entry : Correction
entry = record {
  cash_advance_id = 5;
  employee_id = 3;
  old_amount = 30000;
  new_amount = 35000;
  repayments_applied = 22000;
  old_remaining_balance = 18000;
  new_remaining_balance = 23000;
  overpayment_credit = 0;
  correction_reason = codes "encoded wrong";
  reference = none;
  corrected_by = codes "Ana";
  corrected_at = 9;
}

run :
    correct_cash_advance_amount 5 payload (some (codes "Ana")) 9 book
    ≡ corrected entry (book_of result)
unfolding correct_cash_advance_amount correct_recalculated correction_entry corrected_advance
    basis_of ensure_balances opened_advance balanced_advance find_ledger_advance calculate_balance
    recalculate_balance confirmed_new_repayments is_confirmed run_is_paid balance_from opening_of
    next_ledger_status recalculated_advance eq_text strip lstrip rstrip is_space is_empty
run = refl

covered : confirmed_new_repayments (ensure_balances ledger) 5 ≤ 35000
unfolding confirmed_new_repayments is_confirmed run_is_paid ensure_balances eq_text
covered = omega arith

correct-left_example :
    let l = ensure_balances ledger in
    let k = confirmed_new_repayments l 5 in
    (a : LedgerAdvance) × (n : ℕ) × (b : LedgerAdvance) × (find_ledger_advance 5 l.advances
      ≡ some a)
    × (a.ledger_opening_balance ≡ some n)
    × (find_ledger_advance 5 (book_of result).ledger.advances ≡ some b)
    × (b.amount ≡ 35000)
    × (b.remaining_balance ≡ some (35000 - k))
    × (22000 + (35000 - k) ≡ 35000 + (a.amount - n))
    × (b.overpayment_credit ≡ 22000 - 35000)
correct-left_example =
    correct-left 5 payload (some (codes "Ana")) 9 book (book_of result) entry run covered
