-- ===== src/Payroll/Settle/Tests.antt =====
-- A credit of 80.00 is offset against another advance of the employee
-- (api/cash_advance_corrections.py).
use hidden_oasis_staff_payro.Common.{
  ◌+◌, ◌<◌, ◌≡◌, refl, none, some, [], ◌∷◌, ◌++◌, pos, codes, number_text, strip, lstrip, rstrip,
  is_space, is_empty, eq_text, arith,
}
use hidden_oasis_staff_payro.Payroll.Ledger.{
  Ledger, LedgerAdvance, Balance, find_ledger_advance, confirmed_new_repayments, is_confirmed,
  run_is_paid, calculate_balance, recalculate_balance, ensure_balances, opened_advance,
  balanced_advance, balance_from, opening_of, next_ledger_status, recalculated_advance,
  partially_repaid,
}
use hidden_oasis_staff_payro.Payroll.Ledger.Tests.{ledger, advance_five}
use hidden_oasis_staff_payro.Payroll.Receipt.{insert_repayment}
use hidden_oasis_staff_payro.Payroll.Credit.{
  CreditBook, Settlement, SettlementResult, settlement_refused, settled, CreditSettlementPayload,
  settlement_entry, settlement_guard, is_settlement_method, offset_method,
}
use hidden_oasis_staff_payro.Payroll.Settle.{
  offset_repayment, credited_advance, finish_settlement, offset_target, settle_target, settle_from,
  settle_cash_advance_credit,
}
use hidden_oasis_staff_payro.Payroll.Settle.Whole.{settle-credit, settle-others}

abbrev with_credit : LedgerAdvance
with_credit = record advance_five { id = 6; overpayment_credit = 8000 }

abbrev two_advances : Ledger
two_advances = record ledger { advances = advance_five ∷ with_credit ∷ [] }

abbrev book : CreditBook
book = record { ledger = two_advances; corrections = []; settlements = [] }

abbrev payload : CreditSettlementPayload
payload = record {
  amount = pos 5000;
  method = offset_method;
  note = codes "agreed";
  reference = none;
  target_cash_advance_id = some 5;
}

abbrev book_of : SettlementResult → CreditBook
book_of (settled _ _ s) = s
book_of (settlement_refused _) = book

abbrev result : SettlementResult
result = settle_cash_advance_credit 6 payload none (codes "2026-05-02") 9 book

run :
    settle_cash_advance_credit 6 payload none (codes "2026-05-02") 9 book
    ≡ settled 5000 3000 (book_of result)
unfolding settle_cash_advance_credit settlement_guard is_settlement_method settle_from settle_target
    offset_target finish_settlement offset_repayment credited_advance settlement_entry
    insert_repayment ensure_balances opened_advance balanced_advance find_ledger_advance
    calculate_balance recalculate_balance confirmed_new_repayments is_confirmed run_is_paid
    balance_from opening_of next_ledger_status recalculated_advance eq_text strip lstrip rstrip
    is_space is_empty number_text
run = refl

settle-credit_example :
    let l = ensure_balances two_advances in
    (a b : LedgerAdvance) × (entry : Settlement) × (find_ledger_advance 6 l.advances ≡ some a)
    × (find_ledger_advance 6 (book_of result).ledger.advances ≡ some b)
    × (0 < 5000)
    × (b.overpayment_credit + 5000 ≡ a.overpayment_credit)
    × (b.overpayment_credit ≡ 3000)
    × ((book_of result).settlements ≡ [] ++ entry ∷ [])
    × (entry.amount ≡ 5000)
settle-credit_example =
    settle-credit 6 payload none (codes "2026-05-02") 9 book (book_of result) 5000 3000 run

abbrev target_balance : Balance
target_balance = record { amount = 40000; paid = 22000; balance = 18000; status = partially_repaid }

target_before : calculate_balance (ensure_balances two_advances) 5 ≡ some target_balance
unfolding ensure_balances opened_advance balanced_advance find_ledger_advance calculate_balance
    confirmed_new_repayments is_confirmed run_is_paid balance_from opening_of next_ledger_status
    eq_text
target_before = refl

settle-others_example : calculate_balance (book_of result).ledger 5 ≡ some target_balance
settle-others_example =
    settle-others 6 payload none (codes "2026-05-02") 9 book (book_of result) 5000 3000 5
      target_balance run (λ e. omega (arith, e)) target_before
