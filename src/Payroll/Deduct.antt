-- ===== src/Payroll/Deduct.antt =====
-- core/cash_advance_payroll.py: `apply_payroll_cash_advance_repayments`. A date is an ISO text, of
-- which the first ten characters are compared.
use hidden_oasis_staff_payro.Common.{
  ℕ, ◌-◌, min, Bool, true, false, not, ◌&&◌, ◌||◌, Option, none, some, List, [], ◌∷◌, ◌++◌, map,
  select, ltb, leb, ◌==◌, if◌then◌else◌, value_or, Text, codes, number_text, eq_text, has_part,
  is_empty, lower, ltb_text,
}
use hidden_oasis_staff_payro.Payroll.Store.{Item}
use hidden_oasis_staff_payro.Payroll.Ledger.{
  Ledger, LedgerRun, LedgerAdvance, LedgerRepayment, LedgerStatus, cancelled, fully_repaid, Balance,
  first_or, recalculate_balance,
}
use hidden_oasis_staff_payro.Payroll.Receipt.{insert_repayment}
use hidden_oasis_staff_payro.Payroll.Manual.{leading}

unfoldable pub find_ledger_run : ℕ → List LedgerRun → Option LedgerRun
find_ledger_run i [] = none
find_ledger_run i (r ∷ runs) =
    let rest = find_ledger_run i runs in if r.id == i then some r else rest

abbrev is_settled_status : LedgerStatus → Bool
is_settled_status cancelled = true
is_settled_status fully_repaid = true
is_settled_status _ = false

-- `date(a) <= date(b)`
abbrev by_date : Text → Text → Bool
by_date a b = not (ltb_text (leading 10 b) (leading 10 a))

-- The WHERE clause of the advances that an item repays.
unfoldable pub is_repayable : ℕ → Text → LedgerAdvance → Bool
is_repayable employee period_end a =
    (a.employee_id == employee)
    && ltb 0 (first_or a.remaining_balance (first_or a.outstanding_balance a.amount))
    && not (is_settled_status a.status)
    && has_part (codes "payroll") (lower (value_or a.repayment_method (codes "Payroll deduction")))
    && by_date a.advance_date period_end
    && (not a.release_confirmation_required
        || (elim a.released_at [ none ↦ false | some t ↦ by_date t period_end ]))

-- `ORDER BY date(...), id`
unfoldable pub insert_by_date : LedgerAdvance → List LedgerAdvance → List LedgerAdvance
insert_by_date a [] = a ∷ []
insert_by_date a (b ∷ advances) =
    let rest = insert_by_date a advances in
    let x = leading 10 a.advance_date in
    let y = leading 10 b.advance_date in
    if ltb_text x y || (eq_text x y && leb a.id b.id) then a ∷ b ∷ advances else b ∷ rest

unfoldable pub sorted_by_date : List LedgerAdvance → List LedgerAdvance
unfolding insert_by_date
sorted_by_date [] = []
sorted_by_date (a ∷ advances) = insert_by_date a (sorted_by_date advances)

unfoldable pub repayable_advances : ℕ → Text → List LedgerAdvance → List LedgerAdvance
unfolding is_repayable sorted_by_date
repayable_advances employee period_end advances =
    sorted_by_date (select (is_repayable employee period_end) advances)

abbrev pub is_repayment_of : ℕ → ℕ → LedgerRepayment → Bool
is_repayment_of advance_id run_id r =
    (r.cash_advance_id == advance_id)
    && (elim r.payroll_run_id [ none ↦ false | some i ↦ i == run_id ])

abbrev pub later_row : LedgerRepayment → Option LedgerRepayment → Option LedgerRepayment
later_row r none = some r
later_row r (some s) = if ltb r.id s.id then some s else some r

-- `ORDER BY id DESC LIMIT 1`
unfoldable pub last_repayment : ℕ → ℕ → List LedgerRepayment → Option LedgerRepayment
last_repayment advance_id run_id [] = none
last_repayment advance_id run_id (r ∷ rows) =
    let rest = last_repayment advance_id run_id rows in
    if is_repayment_of advance_id run_id r then later_row r rest else rest

-- The arguments of the call, and the clock.
pub record Call : Type 0 where
  pub run : LedgerRun
  pub actor : Option Text
  pub reference : Option Text
  pub today : Text
  pub now : ℕ

abbrev text_else : Option Text → Text → Text
text_else none d = d
text_else (some t) d = if is_empty t then d else t

unfoldable pub payroll_repayment : Call → Item → LedgerAdvance → ℕ → ℕ → LedgerRepayment
payroll_repayment c item advance amount id = record {
  id = id;
  cash_advance_id = advance.id;
  employee_id = item.employee_id;
  repayment_date = text_else c.run.payout_date c.today;
  payment_date = text_else c.run.payout_date c.today;
  amount = amount;
  source = codes "Payroll";
  payment_method = codes "Payroll deduction";
  method = codes "Payroll deduction";
  payroll_run_id = some c.run.id;
  payroll_item_id = some item.id;
  reference = some (text_else c.reference (codes "Payroll run " ++ number_text c.run.id));
  notes = some (codes "Auto-applied from payroll run " ++ number_text c.run.id);
  idempotency_key = none;
  active = some true;
  created_by = c.actor;
  created_at = c.now;
  updated_by = c.actor;
  updated_at = c.now;
  reversed_by = none;
  reversed_at = none;
  reversal_reason = none;
}

-- The UPDATE of a reversed row: the keys, and who made it and when, stay.
unfoldable pub restored_repayment : LedgerRepayment → LedgerRepayment → LedgerRepayment
restored_repayment values r = record values {
  id = r.id;
  cash_advance_id = r.cash_advance_id;
  payroll_run_id = r.payroll_run_id;
  idempotency_key = r.idempotency_key;
  created_by = r.created_by;
  created_at = r.created_at;
}

unfoldable pub write_repayment : Option LedgerRepayment → LedgerRepayment → Ledger → Ledger
unfolding insert_repayment restored_repayment
write_repayment none values l = insert_repayment values l
write_repayment (some existing) values l = record l {
  repayments =
      map (λ r. if r.id == existing.id then restored_repayment values r else r) l.repayments;
}

-- What one advance repays; `none` for the 404.
unfoldable pub repay_advance :
    Call
    → Item
    → LedgerAdvance
    → Option LedgerRepayment
    → ℕ
    → Ledger × Balance
    → Option (Ledger × ℕ)
unfolding payroll_repayment write_repayment
repay_advance c item advance existing remaining (l, current) =
    if leb current.balance 0
    then some (l, remaining)
    else let amount = min remaining current.balance in
      let values = payroll_repayment c item advance amount l.next_repayment_id in
      elim (recalculate_balance (write_repayment existing values l) advance.id c.now) [
        | none ↦ none
        | some (l', _) ↦ some (l', remaining - amount)
      ]

-- The amount of a repayment of the run that is there and active.
abbrev pub active_amount : Option LedgerRepayment → Option ℕ
active_amount none = none
active_amount (some r) = if value_or r.active true then some r.amount else none

unfoldable pub deduct_advance : Call → Item → LedgerAdvance → ℕ → Ledger → Option (Ledger × ℕ)
unfolding repay_advance last_repayment
deduct_advance c item advance remaining l =
    let existing = last_repayment advance.id c.run.id l.repayments in
    elim (active_amount existing) [
      | some amount ↦ some (l, remaining - amount)
      | none ↦ elim (recalculate_balance l advance.id c.now) [
        | none ↦ none
        | some current ↦ repay_advance c item advance existing remaining current
      ]
    ]
