-- ===== src/Payroll/Apply.antt =====
-- core/cash_advance_payroll.py: the loops of `apply_payroll_cash_advance_repayments`, and
-- `reverse_payroll_cash_advance_repayments`. `none` stands for the 404 of a recalculation.
pub mod Unseen
pub mod Unchanged
mod Tests
use hidden_oasis_staff_payro.Common.{
  ℕ, Bool, true, false, ◌&&◌, Option, none, some, List, [], ◌∷◌, ◌++◌, map, select, leb, ◌==◌,
  if◌then◌else◌, value_or, ltb_ℤ, pos, pos_part, Text, codes, number_text, eq_text, is_empty,
  normalized,
}
use hidden_oasis_staff_payro.Payroll.Store.{Item}
use hidden_oasis_staff_payro.Payroll.Ledger.{
  Balance, Ledger, LedgerRun, LedgerAdvance, LedgerRepayment, ensure_balances, recalculate_balance,
}
use hidden_oasis_staff_payro.Payroll.Receipt.{text_or}
use hidden_oasis_staff_payro.Payroll.Deduct.{
  Call, deduct_advance, find_ledger_run, repayable_advances,
}

-- A row of the loop; once nothing remains, the rows are passed over, which is the `break`.
unfoldable pub advance_step :
    Call → Item → LedgerAdvance → Option (Ledger × ℕ) → Option (Ledger × ℕ)
unfolding deduct_advance
advance_step c item a none = none
advance_step c item a (some (l, remaining)) =
    if leb remaining 0 then some (l, remaining) else deduct_advance c item a remaining l

-- `for advance in advances`
unfoldable pub deduct_advances :
    Call → Item → List LedgerAdvance → Option (Ledger × ℕ) → Option (Ledger × ℕ)
unfolding advance_step
deduct_advances c item [] state = state
deduct_advances c item (a ∷ advances) state =
    deduct_advances c item advances (advance_step c item a state)

abbrev pub ledger_only : Option (Ledger × ℕ) → Option Ledger
ledger_only none = none
ledger_only (some (l, _)) = some l

unfoldable pub apply_item : Call → Item → Option Ledger → Option Ledger
unfolding deduct_advances repayable_advances
apply_item c item none = none
apply_item c item (some l) = ledger_only (
    deduct_advances c item (repayable_advances item.employee_id c.run.period_end l.advances)
      (some (l, pos_part item.cash_advance_deduction)))

-- `for item in items`
unfoldable pub apply_items : Call → List Item → Option Ledger → Option Ledger
unfolding apply_item
apply_items c [] state = state
apply_items c (item ∷ items) state = apply_items c items (apply_item c item state)

-- The WHERE clause of the items.
abbrev pub is_deducted_item : ℕ → Item → Bool
is_deducted_item run_id item =
    (item.payroll_run_id == run_id) && ltb_ℤ (pos 0) item.cash_advance_deduction

-- `str(run.get("revision_treatment") or "").strip().lower() == "adjust_paid"`
abbrev pub mirrors_deductions : LedgerRun → Bool
mirrors_deductions run = eq_text (normalized (text_or run.revision_treatment)) (codes "adjust_paid")

unfoldable pub apply_payroll_cash_advance_repayments :
    ℕ → Option Text → Option Text → Text → ℕ → List Item → Ledger → Option Ledger
unfolding apply_items
apply_payroll_cash_advance_repayments run_id actor reference today now items before =
    let l = ensure_balances before in
    elim (find_ledger_run run_id l.runs) [
      | none ↦ some l
      | some run ↦
          if mirrors_deductions run
          then some l
          else apply_items
              (record { run = run; actor = actor; reference = reference; today = today; now = now })
              (select (is_deducted_item run_id) items) (some l)
    ]

abbrev is_reversible : ℕ → LedgerRepayment → Bool
is_reversible run_id r =
    (elim r.payroll_run_id [ none ↦ false | some i ↦ i == run_id ]) && value_or r.active true

unfoldable pub reversed_repayment :
    ℕ → Option Text → Option Text → ℕ → LedgerRepayment → LedgerRepayment
reversed_repayment run_id actor reason now r = record r {
  active = some false;
  reversed_by = actor;
  reversed_at = some now;
  reversal_reason = some (
      let why = text_or reason in
      if is_empty why
      then codes "Payroll run " ++ number_text run_id ++ codes " reopened/reversed"
      else why);
  updated_by = actor;
  updated_at = now;
}

abbrev after_recalculation : Option (Ledger × Balance) → Option Ledger
after_recalculation none = none
after_recalculation (some (l, _)) = some l

unfoldable pub reverse_row :
    ℕ → Option Text → Option Text → ℕ → LedgerRepayment → Option Ledger → Option Ledger
unfolding reversed_repayment
reverse_row run_id actor reason now row none = none
reverse_row run_id actor reason now row (some l) = after_recalculation (
    recalculate_balance
      (record l {
        repayments =
            map (λ r. if r.id == row.id then reversed_repayment run_id actor reason now r else r)
              l.repayments;
      })
      row.cash_advance_id now)

-- `for row in rows`
unfoldable pub reverse_rows :
    ℕ → Option Text → Option Text → ℕ → List LedgerRepayment → Option Ledger → Option Ledger
unfolding reverse_row
reverse_rows run_id actor reason now [] state = state
reverse_rows run_id actor reason now (r ∷ rows) state =
    reverse_rows run_id actor reason now rows (reverse_row run_id actor reason now r state)

unfoldable pub reverse_payroll_cash_advance_repayments :
    ℕ → Option Text → Option Text → ℕ → Ledger → Option Ledger
unfolding reverse_rows
reverse_payroll_cash_advance_repayments run_id actor reason now before =
    let l = ensure_balances before in
    reverse_rows run_id actor reason now (select (is_reversible run_id) l.repayments) (some l)
