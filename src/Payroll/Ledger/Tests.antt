-- ===== src/Payroll/Ledger/Tests.antt =====
-- An advance of 400.00 with two repayments, of which one is of an unpaid run
-- (api/cash_advance_service.py).
use hidden_oasis_staff_payro.Common.{
  ℕ, String, Bool, Option, false, ◌+◌, ◌≤◌, ◌≡◌, refl, true, none, some, [], ◌∷◌, codes, eq_text,
  normalized, strip, lstrip, rstrip, lower, lower_code, is_space, is_empty, has_part, starts_with,
}
use hidden_oasis_staff_payro.Payroll.Ledger.{
  Ledger, LedgerAdvance, LedgerRepayment, approved_advance, Balance, find_ledger_advance,
  confirmed_new_repayments, is_confirmed, run_is_paid, calculate_balance, recalculate_balance,
  normalize_method, payroll_deduction_method,
}
use hidden_oasis_staff_payro.Payroll.Ledger.Recalculated.{IsStored, recalculate-calculate}

abbrev pub advance_five : LedgerAdvance
advance_five = record {
  id = 5;
  employee_id = 3;
  advance_date = codes "2026-04-02";
  repayment_method = none;
  release_confirmation_required = false;
  released_at = none;
  release_method = none;
  overpayment_credit = 0;
  amount = 40000;
  ledger_opening_balance = some 30000;
  remaining_balance = some 30000;
  outstanding_balance = none;
  status = approved_advance;
  deduction_per_payroll = 10000;
  repayment_per_cutoff = none;
  updated_by = none;
  updated_at = 0;
}

abbrev repaid : ℕ → ℕ → String → Option ℕ → Option Bool → LedgerRepayment
repaid id amount source run active = record {
  id = id;
  cash_advance_id = 5;
  employee_id = 3;
  repayment_date = codes "2026-04-20";
  payment_date = codes "2026-04-20";
  amount = amount;
  source = codes source;
  payment_method = [];
  method = [];
  payroll_run_id = run;
  payroll_item_id = none;
  reference = none;
  notes = none;
  idempotency_key = none;
  active = active;
  created_by = none;
  created_at = 0;
  updated_by = none;
  updated_at = 0;
  reversed_by = none;
  reversed_at = none;
  reversal_reason = none;
}

abbrev pub ledger : Ledger
ledger = record {
  runs =
      record {
        id = 7;
        status = codes "Approved";
        period_end = codes "2026-04-15";
        payout_date = none;
        revision_treatment = none;
      }
      ∷ [];
  advances = advance_five ∷ [];
  repayments =
      repaid 1 12000 "Manual" none (some true) ∷ repaid 2 10000 "Payroll" (some 7) none ∷ [];
  next_repayment_id = 3;
}

one_confirmed : confirmed_new_repayments ledger 5 ≡ 12000
unfolding confirmed_new_repayments is_confirmed run_is_paid eq_text
one_confirmed = refl

method_read : normalize_method (codes " PAYROLL ") ≡ some payroll_deduction_method
unfolding normalize_method normalized strip lstrip rstrip lower lower_code is_space is_empty
    has_part starts_with
method_read = refl

advance_found : find_ledger_advance 5 ledger.advances ≡ some advance_five
unfolding find_ledger_advance
advance_found = refl

recalculate-calculate_example :
    (l' : Ledger) × (b : Balance) × (recalculate_balance ledger 5 9 ≡ some (l', b))
    × (calculate_balance ledger 5 ≡ some b)
    × (calculate_balance l' 5 ≡ some b)
    × IsStored b (find_ledger_advance 5 l'.advances)
    × (30000 ≤ advance_five.amount
        → confirmed_new_repayments ledger 5 ≤ 30000
        → b.paid + b.balance ≡ advance_five.amount)
recalculate-calculate_example =
    recalculate-calculate ledger 5 9 advance_five 30000 advance_found refl
