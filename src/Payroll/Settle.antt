-- ===== src/Payroll/Settle.antt =====
-- api/cash_advance_corrections.py: `settle_cash_advance_credit` past its checks of the request.
pub mod Conserved
pub mod Offset
pub mod Whole
mod Tests
use hidden_oasis_staff_payro.Common.{
  ℕ, ◌+◌, ◌-◌, Bool, true, false, not, Option, none, some, List, [], ◌∷◌, ◌++◌, ◌==◌, ltb,
  if◌then◌else◌, pos_part, Text, codes, number_text, eq_text, strip,
}
use hidden_oasis_staff_payro.Payroll.Ledger.{
  Ledger, LedgerAdvance, LedgerRepayment, Balance, find_ledger_advance, ensure_balances,
  recalculate_balance,
}
use hidden_oasis_staff_payro.Payroll.Receipt.{insert_repayment}
use hidden_oasis_staff_payro.Payroll.Credit.{
  CreditBook, CreditRefusal, no_credit, over_credit, same_advance, unknown_advance, unknown_target,
  another_employee, over_balance, SettlementResult, settlement_refused, settled,
  CreditSettlementPayload, Settlement, settlement_entry, settlement_guard, offset_method, target_of,
  owner_name, update_advance,
}

-- `stamp[:10]` is the parameter `today`.
unfoldable pub offset_repayment :
    ℕ
    → ℕ
    → ℕ
    → LedgerAdvance
    → Text
    → CreditSettlementPayload
    → Option Text
    → Text
    → ℕ
    → ℕ
    → LedgerRepayment
offset_repayment i target amount advance note payload who today now id = record {
  id = id;
  cash_advance_id = target;
  employee_id = advance.employee_id;
  repayment_date = today;
  payment_date = today;
  amount = amount;
  source = codes "Credit Offset";
  payment_method = codes "Credit Offset";
  method = codes "Credit Offset";
  payroll_run_id = none;
  payroll_item_id = none;
  reference = payload.reference;
  notes = some (
      codes "Offset from overpayment credit on cash advance #"
      ++ number_text i
      ++ codes ". "
      ++ note);
  idempotency_key = none;
  active = some true;
  created_by = some (owner_name who);
  created_at = now;
  updated_by = some (owner_name who);
  updated_at = now;
  reversed_by = none;
  reversed_at = none;
  reversal_reason = none;
}

unfoldable pub credited_advance : ℕ → Option Text → ℕ → LedgerAdvance → LedgerAdvance
credited_advance credit who now a = record a {
  overpayment_credit = credit;
  updated_by = some (owner_name who);
  updated_at = now;
}

-- The UPDATE of the credit, and the last recalculation.
unfoldable pub finish_settlement :
    ℕ → ℕ → LedgerAdvance → Option Text → ℕ → CreditBook → Settlement → Ledger → SettlementResult
finish_settlement i amount advance who now s entry l =
    let credit = advance.overpayment_credit - amount in
    elim (recalculate_balance (update_advance i (credited_advance credit who now) l) i now) [
      | none ↦ settlement_refused unknown_advance
      | some (l', _) ↦
          settled amount credit
            (record s { ledger = l'; settlements = s.settlements ++ entry ∷ [] })
    ]

-- The repayment of the target; the ledger is the one after the target's recalculation.
unfoldable pub offset_target :
    ℕ
    → ℕ
    → ℕ
    → LedgerAdvance
    → Text
    → CreditSettlementPayload
    → Option Text
    → Text
    → ℕ
    → CreditBook
    → Settlement
    → Ledger × Balance
    → SettlementResult
offset_target i target amount advance note payload who today now s entry (l, target_summary) =
    if ltb target_summary.balance amount
    then settlement_refused over_balance
    else elim (recalculate_balance
        (insert_repayment
          (offset_repayment i target amount advance note payload who today now l.next_repayment_id)
          l)
        target now) [
          | none ↦ settlement_refused unknown_target
          | some (l', _) ↦ finish_settlement i amount advance who now s entry l'
        ]

unfoldable pub settle_target :
    ℕ
    → ℕ
    → ℕ
    → LedgerAdvance
    → Text
    → CreditSettlementPayload
    → Option Text
    → Text
    → ℕ
    → CreditBook
    → Settlement
    → Ledger
    → SettlementResult
settle_target i target amount advance note payload who today now s entry l =
    if target == i
    then settlement_refused same_advance
    else elim (find_ledger_advance target l.advances) [
      | none ↦ settlement_refused unknown_target
      | some other ↦
          if not (other.employee_id == advance.employee_id)
          then settlement_refused another_employee
          else elim (recalculate_balance l target now) [
            | none ↦ settlement_refused unknown_target
            | some current ↦
                offset_target i target amount advance note payload who today now s entry current
          ]
    ]

unfoldable pub settle_from :
    ℕ
    → ℕ
    → Text
    → Text
    → CreditSettlementPayload
    → Option Text
    → Text
    → ℕ
    → CreditBook
    → Ledger
    → LedgerAdvance
    → SettlementResult
settle_from i amount method note payload who today now s l advance =
    if not (ltb 0 advance.overpayment_credit)
    then settlement_refused no_credit
    else if ltb advance.overpayment_credit amount
    then settlement_refused over_credit
    else elim (if eq_text method offset_method
        then target_of payload.target_cash_advance_id
        else none) [
          | none ↦
              finish_settlement i amount advance who now s
                (settlement_entry i amount method note payload none who now advance) l
          | some target ↦
              settle_target i target amount advance note payload who today now s
                (settlement_entry i amount method note payload (some target) who now advance) l
        ]

unfoldable pub settle_cash_advance_credit :
    ℕ → CreditSettlementPayload → Option Text → Text → ℕ → CreditBook → SettlementResult
settle_cash_advance_credit i payload who today now s =
    let amount = pos_part payload.amount in
    let method = strip payload.method in
    let note = strip payload.note in
    let l = ensure_balances s.ledger in
    elim (settlement_guard amount method note (target_of payload.target_cash_advance_id)) [
      | some refusal ↦ settlement_refused refusal
      | none ↦ elim (find_ledger_advance i l.advances) [
        | none ↦ settlement_refused unknown_advance
        | some advance ↦ settle_from i amount method note payload who today now s l advance
      ]
    ]
