-- ===== src/Payroll/Credit.antt =====
-- api/cash_advance_corrections.py: `correct_cash_advance_amount` past the access check, and
-- the request of a settlement. Amounts are in centavos, not negative once they are accepted; what the
-- route reports besides its result is left out.
pub mod Corrected
mod Tests
use hidden_oasis_staff_payro.Common.{
  ℕ, zero, suc, is_some, ◌+◌, ◌-◌, Bool, true, false, not, ◌&&◌, ◌||◌, Option, none, some, List, [],
  ◌∷◌, ◌++◌, map, ◌==◌, ltb, leb, if◌then◌else◌, ℤ, pos, ltb_ℤ, pos_part, Text, codes, number_text,
  eq_text, is_empty, strip,
}
use hidden_oasis_staff_payro.Payroll.Ledger.{
  Ledger, LedgerAdvance, LedgerRepayment, Balance, find_ledger_advance, ensure_balances,
  ledger_where_id, recalculate_balance,
}
use hidden_oasis_staff_payro.Payroll.Receipt.{text_or, insert_repayment}

pub record Correction : Type 0 where
  pub cash_advance_id : ℕ
  pub employee_id : ℕ
  pub old_amount : ℕ
  pub new_amount : ℕ
  pub repayments_applied : ℕ
  pub old_remaining_balance : ℕ
  pub new_remaining_balance : ℕ
  pub overpayment_credit : ℕ
  pub correction_reason : Text
  pub reference : Option Text
  pub corrected_by : Text
  pub corrected_at : ℕ

pub record Settlement : Type 0 where
  pub cash_advance_id : ℕ
  pub employee_id : ℕ
  pub amount : ℕ
  pub method : Text
  pub reference : Option Text
  pub note : Text
  pub target_cash_advance_id : Option ℕ
  pub settled_by : Text
  pub settled_at : ℕ

pub record CreditBook : Type 0 where
  pub ledger : Ledger
  pub corrections : List Correction
  pub settlements : List Settlement

pub data CreditRefusal : Type 0 where
  not_positive no_reason unknown_advance same_basis : CreditRefusal
  unknown_method no_note no_target no_credit over_credit : CreditRefusal
  same_advance unknown_target another_employee over_balance : CreditRefusal

pub data CorrectionResult : Type 0 where
  correction_refused : CreditRefusal → CorrectionResult
  corrected : Correction → CreditBook → CorrectionResult

pub record AmountCorrectionPayload : Type 0 where
  pub corrected_amount : ℤ
  pub correction_reason : Text
  pub reference : Option Text

-- `user.get("display_name") or "Owner"`
abbrev pub owner_name : Option Text → Text
owner_name who = let name = text_or who in if is_empty name then codes "Owner" else name

unfoldable pub basis_of : LedgerAdvance → ℕ
basis_of a = elim a.ledger_opening_balance [ none ↦ a.amount | some n ↦ n ]

unfoldable pub corrected_advance : ℕ → ℕ → Option Text → ℕ → LedgerAdvance → LedgerAdvance
corrected_advance amount credit who now a = record a {
  amount = amount;
  ledger_opening_balance = some amount;
  overpayment_credit = credit;
  updated_by = who;
  updated_at = now;
}

abbrev pub update_advance : ℕ → (LedgerAdvance → LedgerAdvance) → Ledger → Ledger
update_advance i f l = record l { advances = map (ledger_where_id i f) l.advances }

unfoldable pub correction_entry :
    ℕ
    → LedgerAdvance
    → ℕ
    → AmountCorrectionPayload
    → Option Text
    → ℕ
    → Balance
    → Balance
    → Correction
unfolding basis_of
correction_entry i advance amount payload who now old_summary new_summary = record {
  cash_advance_id = i;
  employee_id = advance.employee_id;
  old_amount = basis_of advance;
  new_amount = amount;
  repayments_applied = old_summary.paid;
  old_remaining_balance = old_summary.balance;
  new_remaining_balance = new_summary.balance;
  overpayment_credit = old_summary.paid - amount;
  correction_reason = strip payload.correction_reason;
  reference = payload.reference;
  corrected_by = owner_name who;
  corrected_at = now;
}

unfoldable pub correct_recalculated :
    ℕ
    → ℕ
    → AmountCorrectionPayload
    → Option Text
    → ℕ
    → CreditBook
    → LedgerAdvance
    → Ledger × Balance
    → CorrectionResult
unfolding basis_of
correct_recalculated i amount payload who now s advance (l, old_summary) =
    if amount == basis_of advance
    then correction_refused same_basis
    else elim (recalculate_balance
        (update_advance i (corrected_advance amount (old_summary.paid - amount) who now) l) i now) [
          | none ↦ correction_refused unknown_advance
          | some (l', new_summary) ↦
              let entry =
                correction_entry i advance amount payload who now old_summary new_summary in
              corrected entry (record s { ledger = l'; corrections = s.corrections ++ entry ∷ [] })
        ]

-- The tables are those that `ensure_schema` leaves.
unfoldable pub correct_cash_advance_amount :
    ℕ → AmountCorrectionPayload → Option Text → ℕ → CreditBook → CorrectionResult
unfolding correct_recalculated
correct_cash_advance_amount i payload who now s =
    let l = ensure_balances s.ledger in
    let amount = pos_part payload.corrected_amount in
    if not (ltb_ℤ (pos 0) payload.corrected_amount)
    then correction_refused not_positive
    else if is_empty (strip payload.correction_reason)
    then correction_refused no_reason
    else elim (find_ledger_advance i l.advances) [
      | none ↦ correction_refused unknown_advance
      | some advance ↦ elim (recalculate_balance l i now) [
        | none ↦ correction_refused unknown_advance
        | some old ↦ correct_recalculated i amount payload who now s advance old
      ]
    ]

pub data SettlementResult : Type 0 where
  settlement_refused : CreditRefusal → SettlementResult
  settled : ℕ → ℕ → CreditBook → SettlementResult

pub record CreditSettlementPayload : Type 0 where
  pub amount : ℤ
  pub method : Text
  pub note : Text
  pub reference : Option Text
  pub target_cash_advance_id : Option ℕ

abbrev pub offset_method : Text
offset_method = codes "Offset another cash advance"

unfoldable pub is_settlement_method : Text → Bool
is_settlement_method method =
    eq_text method (codes "Cash payout")
    || eq_text method (codes "Payroll reimbursement")
    || eq_text method offset_method

-- An id of 0 is none.
abbrev pub target_of : Option ℕ → Option ℕ
target_of none = none
target_of (some zero) = none
target_of (some (suc t)) = some (suc t)

unfoldable pub settlement_guard : ℕ → Text → Text → Option ℕ → Option CreditRefusal
settlement_guard amount method note target =
    if not (ltb 0 amount)
    then some not_positive
    else if not (is_settlement_method method)
    then some unknown_method
    else if is_empty note
    then some no_note
    else if eq_text method offset_method && not (is_some target)
    then some no_target
    else none

unfoldable pub settlement_entry :
    ℕ
    → ℕ
    → Text
    → Text
    → CreditSettlementPayload
    → Option ℕ
    → Option Text
    → ℕ
    → LedgerAdvance
    → Settlement
settlement_entry i amount method note payload target who now advance = record {
  cash_advance_id = i;
  employee_id = advance.employee_id;
  amount = amount;
  method = method;
  reference = payload.reference;
  note = note;
  target_cash_advance_id = target;
  settled_by = owner_name who;
  settled_at = now;
}
