-- ===== src/Payroll/Thirteenth/Save.antt =====
-- core/payroll_engine.py: the lines and the queue of `save_13th_month_run`.
use hidden_oasis_staff_payro.Common.{
  ℕ, zero, suc, Bool, true, false, not, ◌&&◌, ◌||◌, Option, none, some, List, [], ◌∷◌, ◌++◌, select,
  some_row, ◌==◌, if◌then◌else◌, value_or, ℤ, pos, negsuc, ltb_ℤ, Text, codes, eq_text,
}
use hidden_oasis_staff_payro.Payroll.Money.{money}
use hidden_oasis_staff_payro.Payroll.Thirteenth.{
  ThirteenthRun, ThirteenthLine, ThirteenthEntry, LineKind, basis, earning, adjustment, deduction,
  Book, Action, saved_run, event_failed, SaveRequest, base_13th, find_thirteenth, upsert_thirteenth,
}

abbrev pub is_zero : ℤ → Bool
is_zero (pos zero) = true
is_zero (pos (suc n)) = false
is_zero (negsuc n) = false

-- `abs(amount) < 0.005 and kind not in ("basis", "earning")`, the lines that are passed over.
abbrev pub is_left_out : ThirteenthLine → Bool
is_left_out line = elim line.kind [
  | basis ↦ false
  | earning ↦ false
  | adjustment ↦ is_zero line.amount
  | deduction ↦ is_zero line.amount
]

abbrev pub month_line : ℕ → LineKind → ℤ → Text → ℕ → ThirteenthLine
month_line run_id kind amount notes order = record {
  run_id = run_id;
  kind = kind;
  amount = amount;
  notes = notes;
  sort_order = order;
}

unfoldable pub saved_lines : ℕ → SaveRequest → ℕ → List ThirteenthLine
unfolding base_13th
saved_lines unit q run_id =
    select (λ line. not (is_left_out line))
      (month_line run_id basis (money unit q.basis_amount)
          (codes "Regular/basic pay + paid leave pay") 10
        ∷ month_line run_id earning (base_13th unit q) (codes "Basis / 12") 20
        ∷ month_line run_id adjustment (money unit q.adjustment_amount) q.notes 30
        ∷ month_line run_id deduction (money unit q.deductions) q.notes 40
        ∷ [])

abbrev pub find_id : ℕ → List ThirteenthRun → Option ThirteenthRun
find_id i [] = none
find_id i (r ∷ runs) = let rest = find_id i runs in if r.id == i then some r else rest

abbrev pub journal_entry : ℕ → Text → ThirteenthRun → ThirteenthEntry
journal_entry run_id today run = record {
  source_id = run_id;
  entry_date = value_or run.release_date today;
  amount = run.net_13th_pay;
}

-- The employee exists and there is an amount to post.
abbrev pub is_payable_run : Book → ThirteenthRun → Bool
is_payable_run b run =
    some_row (λ i. i == run.employee_id) b.employees && ltb_ℤ (pos 0) run.net_13th_pay

-- `create_accounting_queue_for_13th_month`
unfoldable pub queue_13th_month : ℕ → Text → Book → Book
queue_13th_month run_id today b =
    if some_row (λ e. e.source_id == run_id) b.entries then b else elim (find_id run_id b.runs) [
      | none ↦ b
      | some run ↦
          if is_payable_run b run
          then record b { entries = b.entries ++ journal_entry run_id today run ∷ [] }
          else b
    ]

abbrev pub noted : Text → Action → ℕ → Book → Book
noted actor action run_id b = record b {
  audits = b.audits ++ record { actor = actor; action = action; record_id = run_id } ∷ [];
}

abbrev is_paid_text : Text → Bool
is_paid_text status = eq_text status (codes "Paid") || eq_text status (codes "Locked")

unfoldable pub with_entry : SaveRequest → ℕ → Book → Book
unfolding queue_13th_month
with_entry q run_id b = if is_paid_text q.status then queue_13th_month run_id q.today b else b

unfoldable pub announced : SaveRequest → ℕ → Book → Book
unfolding with_entry
announced q run_id b =
    let after = with_entry q run_id b in
    if eq_text q.status (codes "Approved") || is_paid_text q.status
    then elim q.event_error [
      | none ↦ after
      | some _ ↦ noted q.prepared_by event_failed run_id after
    ]
    else b

-- The old lines are deleted and the new ones added.
unfoldable pub with_lines : ℕ → SaveRequest → ℕ → List ThirteenthRun → ℕ → Book → Book
unfolding saved_lines
with_lines unit q run_id runs next b = record b {
  runs = runs;
  next_run_id = next;
  lines = select (λ line. not (line.run_id == run_id)) b.lines ++ saved_lines unit q run_id;
}

-- The book and the id; `none` is the error of `fetchone()[0]` where no row is found.
unfoldable pub save_13th_month_run : ℕ → SaveRequest → Book → Option (Book × ℕ)
unfolding with_lines upsert_thirteenth find_thirteenth announced
save_13th_month_run unit q b =
    let runs = upsert_thirteenth unit q b.next_run_id b.runs in
    let next : ℕ = elim (find_thirteenth q b.runs) [
      | none ↦ suc b.next_run_id
      | some _ ↦ b.next_run_id
    ] in
    elim (find_thirteenth q runs) [
      | none ↦ none
      | some row ↦ some (
        announced q row.id
            (noted q.prepared_by saved_run row.id (with_lines unit q row.id runs next b)),
        row.id,
      )
    ]
