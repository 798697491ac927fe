-- ===== src/Payroll/Payment/Tests.antt =====
-- An approved run with a deduction of 50.00 is marked paid (api/payroll_mark_paid.py).
use hidden_oasis_staff_payro.Payroll.Receipt.{insert_repayment}
use hidden_oasis_staff_payro.Payroll.Queue.{
  adjusts_paid, create_accounting_queue_for_payroll, entry_of, lines, posted_lines, total,
}
use hidden_oasis_staff_payro.Payroll.Ledger.{
  ensure_balances, balanced_advance, opened_advance, recalculate_balance, calculate_balance,
  balance_from, confirmed_new_repayments, find_ledger_advance, is_confirmed, next_ledger_status,
  opening_of, recalculated_advance, run_is_paid,
}
use hidden_oasis_staff_payro.Payroll.Deduct.{
  find_ledger_run, deduct_advance, insert_by_date, is_repayable, last_repayment, payroll_repayment,
  repay_advance, repayable_advances, sorted_by_date, write_repayment,
}
use hidden_oasis_staff_payro.Payroll.Apply.{
  apply_payroll_cash_advance_repayments, advance_step, deduct_advances, apply_item, apply_items,
}
use hidden_oasis_staff_payro.Payroll.Lifecycle.{same_status, paid_run}
use hidden_oasis_staff_payro.Common.{
  ◌≡◌, refl, true, none, some, [], ◌∷◌, map, pos, codes, eq_text, strip, normalized, has_part,
  ltb_text, ◌+ℤ◌, is_empty, is_space, lower, lower_code, lstrip, number_text, rstrip, starts_with,
}
use hidden_oasis_staff_payro.Payroll.Store.{Run, Item, approved, paid, find_run}
use hidden_oasis_staff_payro.Payroll.Revision.{
  revision_parent_for_payment, superseding_run_id, is_paid_like_run,
}
use hidden_oasis_staff_payro.Payroll.Ledger.Tests.{advance_five}
use hidden_oasis_staff_payro.Payroll.Payment.{
  Payroll, MarkPaidRequest, Payment, payment_refused, run_paid, mark_payroll_run_paid, ledger_run,
  create_event, finish_payment, pay_checked, pay_run, payment_guard, settle_original, status_text,
}
use hidden_oasis_staff_payro.Payroll.Payment.Paid.{IsCleared, mark-paid}

abbrev run_nine : Run
run_nine = record {
  id = 9;
  status = approved;
  period_end = codes "2026-05-10";
  payout_date = codes "2026-05-15";
  revision_of_run_id = none;
  superseded_by_run_id = none;
  revision_treatment = none;
  prepared_by = none;
  approved_by = some (codes "Ana");
  approved_at = some 1;
  paid_at = none;
  locked_at = none;
  reopen_reason = none;
}

abbrev pub item : Item
item = record {
  id = 11;
  payroll_run_id = 9;
  employee_id = 3;
  gross_pay = pos 500000;
  sss_ee = pos 0;
  philhealth_ee = pos 0;
  pagibig_ee = pos 0;
  tax = pos 0;
  sss_er = pos 0;
  sss_ec = pos 0;
  philhealth_er = pos 0;
  pagibig_er = pos 0;
  cash_advance_deduction = pos 5000;
  other_deductions = pos 0;
  net_pay = pos 495000;
}

abbrev payroll : Payroll
payroll = record {
  runs = run_nine ∷ [];
  items = item ∷ [];
  advances = advance_five ∷ [];
  repayments = [];
  next_repayment_id = 1;
  queue = [];
  handoffs = [];
  audit = [];
}

abbrev request : MarkPaidRequest
request = record {
  is_owner = true;
  confirmation = codes "MARK PAID";
  reference = none;
  actor = codes "Ana";
  blockers = 0;
  event_error = none;
  today = codes "2026-05-14";
  now = 7;
}

abbrev payroll_after : Payment → Payroll
payroll_after (run_paid p) = p
payroll_after (payment_refused _) = payroll

abbrev after : Payroll
after = payroll_after (mark_payroll_run_paid 9 request payroll)

-- The advance repays 50.00. The balance that is stored with the payment is the one before it.
run :
    (mark_payroll_run_paid 9 request payroll ≡ run_paid after)
    × (map (λ r. r.amount) after.repayments ≡ 5000 ∷ [])
    × (map (λ a. a.outstanding_balance) after.advances ≡ some 30000 ∷ [])
unfolding mark_payroll_run_paid eq_text strip find_run same_status revision_parent_for_payment
    superseding_run_id apply_payroll_cash_advance_repayments find_ledger_run ensure_balances
    ledger_run normalized balanced_advance opened_advance has_part ltb_text recalculate_balance
    calculate_balance ◌+ℤ◌ is_empty is_space lower lower_code lstrip number_text rstrip starts_with
    advance_step deduct_advances apply_item apply_items deduct_advance insert_by_date is_repayable
    last_repayment payroll_repayment repay_advance repayable_advances sorted_by_date write_repayment
    balance_from confirmed_new_repayments find_ledger_advance is_confirmed next_ledger_status
    opening_of recalculated_advance run_is_paid paid_run create_event finish_payment pay_checked
    pay_run payment_guard settle_original status_text adjusts_paid
    create_accounting_queue_for_payroll entry_of lines posted_lines total insert_repayment
    is_paid_like_run
run = (refl, refl, refl)

mark-paid_example :
    (run after_run : Run) × (find_run 9 payroll.runs ≡ some run)
    × (true ≡ true)
    × (run.status ≡ approved)
    × (run.paid_at ≡ none)
    × (request.blockers ≡ 0)
    × IsCleared (revision_parent_for_payment payroll.runs run)
    × (find_run 9 after.runs ≡ some after_run)
    × (after_run.status ≡ paid)
    × (after_run.paid_at ≡ some 7)
mark-paid_example = mark-paid 9 request payroll after run.0
