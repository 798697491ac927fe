-- ===== src/Payroll/Advances.antt =====
-- core/payroll_engine.py: `apply_cash_advance_repayments` and `reverse_cash_advance_repayments`.
pub mod Rows
pub mod Conserved
pub mod Reversed
pub mod Repeated
use hidden_oasis_staff_payro.Common.{
  ℕ, zero, suc, ◌+◌, ◌-◌, min, Bool, true, false, not, ◌&&◌, ◌||◌, Option, none, some, List, [],
  ◌∷◌, ◌++◌, map, select, ltb, leb, ◌==◌, if◌then◌else◌, ltb_ℤ, pos, pos_part, Text, eq_text,
  ltb_text,
}
use hidden_oasis_staff_payro.Payroll.Store.{
  Store, Run, Item, Advance, AdvanceStatus, released, partially_paid, advance_approved, fully_paid,
  Repayment, find_run, find_advance, advance_where_id,
}

abbrev pub of_run : ℕ → Repayment → Bool
of_run run_id p = elim p.payroll_run_id [ none ↦ false | some i ↦ i == run_id ]

unfoldable pub repayments_of : ℕ → List Repayment → List Repayment
repayments_of run_id repayments = select (of_run run_id) repayments

abbrev is_deductible_status : AdvanceStatus → Bool
is_deductible_status released = true
is_deductible_status partially_paid = true
is_deductible_status advance_approved = true
is_deductible_status _ = false

-- The WHERE clause of the advances of one employee.
unfoldable pub is_deductible : ℕ → Advance → Bool
is_deductible employee a =
    (a.employee_id == employee) && ltb 0 a.outstanding_balance && is_deductible_status a.status

-- `ORDER BY request_date, id`
abbrev comes_before : Advance → Advance → Bool
comes_before a b =
    ltb_text a.request_date b.request_date
    || (eq_text a.request_date b.request_date && leb a.id b.id)

unfoldable pub insert_ordered : Advance → List Advance → List Advance
insert_ordered a [] = a ∷ []
insert_ordered a (b ∷ advances) =
    let rest = insert_ordered a advances in if comes_before a b then a ∷ b ∷ advances else b ∷ rest

unfoldable pub ordered : List Advance → List Advance
ordered [] = []
ordered (a ∷ advances) = insert_ordered a (ordered advances)

unfoldable pub deductible_advances : ℕ → List Advance → List Advance
deductible_advances employee advances = ordered (select (is_deductible employee) advances)

abbrev prefix : ℕ → Text → Text
prefix zero t = []
prefix (suc n) [] = []
prefix (suc n) (c ∷ t) = c ∷ prefix n t

-- The release of the advance is not confirmed by the end of the period.
unfoldable pub awaits_release : Run → Advance → Bool
awaits_release run a =
    a.release_confirmation_required
    && (elim a.released_at [ none ↦ true | some t ↦ ltb_text run.period_end (prefix 10 t) ])

unfoldable pub deducted_advance : ℕ → Advance → Advance → Advance
deducted_advance amount ca a = record a {
  outstanding_balance = ca.outstanding_balance - amount;
  status = if leb (ca.outstanding_balance - amount) 0 then fully_paid else partially_paid;
}

unfoldable pub deduction : Run → Advance → ℕ → Repayment
deduction run ca amount = record {
  cash_advance_id = ca.id;
  payroll_run_id = some run.id;
  payment_date = run.payout_date;
  amount = amount;
}

-- The INSERT of a repayment and the UPDATE of its advance.
unfoldable pub repay : Run → Advance → ℕ → Store → Store
repay run ca amount s = record s {
  advances = map (advance_where_id ca.id (deducted_advance amount ca)) s.advances;
  repayments = s.repayments ++ (deduction run ca amount ∷ []);
}

-- The inner loop, over the rows of the query; `remaining` is what is left of the deduction.
unfoldable pub deduct : Run → List Advance → ℕ → Store → Store
unfolding repay
deduct run [] remaining s = s
deduct run (ca ∷ advances) remaining s =
    let skipped = deduct run advances remaining s in
    let amount = min remaining ca.outstanding_balance in
    let deducted = deduct run advances (remaining - amount) (repay run ca amount s) in
    if leb remaining 0 then s else if awaits_release run ca then skipped else deducted

abbrev pub is_item_of : ℕ → Item → Bool
is_item_of run_id item =
    (item.payroll_run_id == run_id) && ltb_ℤ (pos 0) item.cash_advance_deduction

-- The outer loop, over the items of the run.
unfoldable pub deduct_items : Run → List Item → Store → Store
unfolding deduct
deduct_items run [] s = s
deduct_items run (item ∷ items) s = deduct_items run items (
    deduct run (deductible_advances item.employee_id s.advances)
      (pos_part item.cash_advance_deduction) s)

unfoldable pub apply_cash_advance_repayments : ℕ → Store → Store
apply_cash_advance_repayments run_id s = elim (repayments_of run_id s.repayments) [
  | _ ∷ _ ↦ s
  | [] ↦ elim (find_run run_id s.runs) [
    | none ↦ s
    | some run ↦ deduct_items run (select (is_item_of run_id) s.items) s
  ]
]

unfoldable pub restored_advance : ℕ → Advance → Advance → Advance
restored_advance amount ca a = record a {
  outstanding_balance = ca.outstanding_balance + amount;
  status = if leb ca.amount (ca.outstanding_balance + amount) then released else partially_paid;
}

unfoldable pub restore : Repayment → List Advance → List Advance
restore p advances = elim (find_advance p.cash_advance_id advances) [
  | none ↦ advances
  | some ca ↦ map (advance_where_id ca.id (restored_advance p.amount ca)) advances
]

-- The loop over the repayments of the run.
unfoldable pub restore_all : List Repayment → List Advance → List Advance
unfolding restore
restore_all [] advances = advances
restore_all (p ∷ repayments) advances = restore_all repayments (restore p advances)

-- The loop and the DELETE.
unfoldable pub reverse_cash_advance_repayments : ℕ → Store → Store
unfolding restore_all
reverse_cash_advance_repayments run_id s = record s {
  advances = restore_all (repayments_of run_id s.repayments) s.advances;
  repayments = select (λ p. not (of_run run_id p)) s.repayments;
}
