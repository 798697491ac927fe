-- ===== src/Payroll/Thirteenth/Tests.antt =====
-- A basis of 1200.00 is saved as paid, over a draft with an old line (core/payroll_engine.py). There
-- are ten parts to the centavo: 10.005 are added and 5.004 deducted.
use hidden_oasis_staff_payro.Common.{
  ℕ, ◌≡◌, ◌≤◌, refl, arith, some, none, [], ◌∷◌, Option, pos, codes, eq_text, ◌+ℤ◌, ◌-ℤ◌, map,
  String,
}
use hidden_oasis_staff_payro.Payroll.Thirteenth.{
  ThirteenthRun, adjustment, Book, SaveRequest, PaidItem, basis_total, compute_13th_month_basis,
  base_13th, net_13th, find_thirteenth, saved_thirteenth, upsert_thirteenth,
}
use hidden_oasis_staff_payro.Payroll.Thirteenth.Save.{
  month_line, saved_lines, queue_13th_month, with_entry, announced, with_lines, save_13th_month_run,
}
use hidden_oasis_staff_payro.Payroll.Thirteenth.Saved.{lines_net}
use hidden_oasis_staff_payro.Payroll.Thirteenth.Rounded.{
  save_13th_month_run-net, save_13th_month_run-whole,
}
use hidden_oasis_staff_payro.Payroll.Money.{magnitude, money, half_up_cents, in_units}
use hidden_oasis_staff_payro.Payroll.Thirteenth.Once.{entry_count, save_13th_month_run-once}

abbrev request : SaveRequest
request = record {
  employee_id = 3;
  year = 2026;
  period_label = codes "Full";
  basis_amount = pos 1200000;
  adjustment_amount = pos 10005;
  deductions = pos 5004;
  status = codes "Paid";
  release_date = none;
  prepared_by = codes "Ana";
  notes = [];
  event_error = none;
  today = codes "2026-12-10";
  now = 9;
}

abbrev draft : ThirteenthRun
draft = saved_thirteenth 10 request 4 2

abbrev book : Book
book = record {
  employees = 3 ∷ [];
  runs = draft ∷ [];
  next_run_id = 5;
  lines = month_line 4 adjustment (pos 700) [] 30 ∷ [];
  entries = [];
  audits = [];
}

abbrev book_of : Option (Book × ℕ) → Book
book_of none = book
book_of (some (b, _)) = b

abbrev after : Book
after = book_of (save_13th_month_run 10 request book)

-- The net pay is 105.00, and the lines add up to 105.01.
run :
    (save_13th_month_run 10 request book ≡ some (after, 4))
    × (map (λ line. line.amount) after.lines ≡ pos 120000 ∷ pos 10000 ∷ pos 1001 ∷ pos 500 ∷ [])
    × (map (λ r. r.net_13th_pay) after.runs ≡ pos 10500 ∷ [])
    × (lines_net 4 after.lines ≡ pos 10501)
    × (map (λ e. e.amount) after.entries ≡ pos 10500 ∷ [])
unfolding save_13th_month_run with_lines saved_lines announced with_entry queue_13th_month base_13th
    net_13th money half_up_cents in_units lines_net find_thirteenth saved_thirteenth
    upsert_thirteenth eq_text ◌+ℤ◌ ◌-ℤ◌
run = (refl, refl, refl, refl, refl)

-- The run of a later year and the superseded one do not count.
abbrev item : String → Option ℕ → PaidItem
item period superseded = record {
  employee_id = 3;
  regular_pay = pos 10004;
  paid_leave_pay = pos 501;
  run_period_start = codes period;
  run_status = codes "Paid";
  run_superseded_by = superseded;
}

basis :
    compute_13th_month_basis 10
      (item "2026-01-01" none ∷ item "2027-01-01" none ∷ item "2026-02-01" (some 8) ∷ [])
      3
      (codes "2026")
    ≡ pos 1051
unfolding compute_13th_month_basis basis_total eq_text ◌+ℤ◌ money half_up_cents
basis = refl

save_13th_month_run-net_example :
    (b : Book) × (id : ℕ) × (row : ThirteenthRun) × (save_13th_month_run 10 request book
      ≡ some (b, id))
    × (find_thirteenth request b.runs ≡ some row)
    × (row.id ≡ id)
    × (row.net_13th_pay ≡ net_13th 10 request)
    × (magnitude (lines_net id b.lines -ℤ row.net_13th_pay) ≤ 1)
save_13th_month_run-net_example = save_13th_month_run-net 10 request book (omega arith)

abbrev whole_request : SaveRequest
whole_request = record request { adjustment_amount = pos 10000; deductions = pos 5000 }

whole :
    (whole_request.adjustment_amount ≡ in_units 10 (pos 1000))
    × (whole_request.deductions ≡ in_units 10 (pos 500))
unfolding in_units
whole = (refl, refl)

save_13th_month_run-whole_example :
    (b : Book) × (id : ℕ) × (row : ThirteenthRun) × (save_13th_month_run 10 whole_request book
      ≡ some (b, id))
    × (find_thirteenth whole_request b.runs ≡ some row)
    × (row.net_13th_pay ≡ (row.base_13th_amount +ℤ pos 1000) -ℤ pos 500)
    × (lines_net id b.lines ≡ row.net_13th_pay)
save_13th_month_run-whole_example =
    save_13th_month_run-whole 10 whole_request book (pos 1000) (pos 500) (omega arith) whole.0
      whole.1

save_13th_month_run-once_example : entry_count 4 after.entries ≤ 1
save_13th_month_run-once_example =
    save_13th_month_run-once 10 request book after 4 4 run.0 (ground arith)
