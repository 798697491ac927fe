-- ===== src/Payroll/Tests.antt =====
-- A payroll of two employees and three cash advances, paid, reversed and refused (core/payroll_engine.py).
use hidden_oasis_staff_payro.Common.{
  ℕ, ◌≡◌, ◌≢◌, ◌⊎◌, refl, true, false, none, some, [], ◌∷◌, All, arith, pos, ◌+ℤ◌, ◌-ℤ◌, ◌≤ℤ◌,
  codes, is_some, List, map, strip, lstrip, rstrip, eq_text, ltb_text, is_space,
}
use hidden_oasis_staff_payro.Payroll.Store.{
  Run, Item, Advance, Store, approved, paid, released, find_run, find_advance,
  normalize_payroll_status,
}
use hidden_oasis_staff_payro.Payroll.Advances.{
  apply_cash_advance_repayments, reverse_cash_advance_repayments, repayments_of, deduct_items,
  deduct, repay, deductible_advances, is_deductible, ordered, insert_ordered, awaits_release,
  deducted_advance, deduction,
}
use hidden_oasis_staff_payro.Payroll.Advances.Rows.{AreDistinct}
use hidden_oasis_staff_payro.Payroll.Advances.Conserved.{Conserves, apply-Conserves, balance_of}
use hidden_oasis_staff_payro.Payroll.Advances.Reversed.{apply-reverse}
use hidden_oasis_staff_payro.Payroll.Advances.Repeated.{apply-apply}
use hidden_oasis_staff_payro.Payroll.Queue.{lines, posted_lines, total}
use hidden_oasis_staff_payro.Payroll.Queue.Payable.{payable-residue, payable_balance, IsBalanced}
use hidden_oasis_staff_payro.Payroll.Lifecycle.{
  Books, Request, refused, changed, finalized, has_blockers, update_payroll_status, update_run,
  change, guard, changed_books, is_final, same_status, allowed, is_superseded, is_revision,
}
use hidden_oasis_staff_payro.Payroll.Lifecycle.Finalized.{status-change, final_stays}
use hidden_oasis_staff_payro.Payroll.Lifecycle.Money.{money-moves, IsSameMoney}

abbrev run_seven : Run
run_seven = record {
  id = 7;
  status = approved;
  period_end = codes "2026-01-14";
  payout_date = codes "2026-01-15";
  revision_of_run_id = none;
  superseded_by_run_id = none;
  revision_treatment = none;
  prepared_by = some (codes "Ana");
  approved_by = some (codes "Ben");
  approved_at = some 100;
  paid_at = none;
  locked_at = none;
  reopen_reason = none;
}

abbrev run_six : Run
run_six = record run_seven { id = 6; status = paid; paid_at = some 90 }

-- Gross 5000.00, less 800.00 of deductions and 500.00 of cash advances.
abbrev item_of_one : Item
item_of_one = record {
  id = 11;
  payroll_run_id = 7;
  employee_id = 1;
  gross_pay = pos 500000;
  sss_ee = pos 20000;
  philhealth_ee = pos 15000;
  pagibig_ee = pos 10000;
  tax = pos 5000;
  sss_er = pos 40000;
  sss_ec = pos 1000;
  philhealth_er = pos 15000;
  pagibig_er = pos 10000;
  cash_advance_deduction = pos 50000;
  other_deductions = pos 30000;
  net_pay = pos 370000;
}

abbrev advance : ℕ → ℕ → Advance
advance id balance = record {
  id = id;
  employee_id = 1;
  amount = 40000;
  outstanding_balance = balance;
  status = released;
  request_date = codes "2026-01-02";
  release_confirmation_required = false;
  released_at = none;
  custom_next_deduction = none;
  repayment_per_cutoff = 10000;
}

abbrev advances_before : List Advance
advances_before =
    advance 2 40000 ∷ advance 1 30000 ∷ record (advance 3 9000) { employee_id = 2 } ∷ []

abbrev shop : Store
shop = record {
  runs = run_six ∷ run_seven ∷ [];
  items = item_of_one ∷ [];
  advances = advances_before;
  repayments = [];
}

abbrev books : Books
books = record { store = shop; queue = []; handoffs = []; audit = [] }

abbrev pay_request : Request
pay_request = record {
  status = codes " Paid ";
  actor = codes "Owner";
  reason = none;
  now = 120;
  blockers = 0;
  handoff_error = none;
}

-- The first of two advances of one date is repaid first, and the other with what is left.
balances_after :
    map (λ (a : Advance). a.outstanding_balance) (apply_cash_advance_repayments 7 shop).advances
    ≡ 20000 ∷ 0 ∷ 9000 ∷ []
unfolding apply_cash_advance_repayments repayments_of find_run deduct_items deduct repay
    deductible_advances is_deductible ordered insert_ordered awaits_release deducted_advance
    deduction ltb_text eq_text
balances_after = refl

shop_distinct : AreDistinct shop.advances
unfolding AreDistinct
shop_distinct = ((omega arith, (omega arith, tt)), ((omega arith, tt), (tt, tt)))

shop_unpaid : repayments_of 7 shop.repayments ≡ []
unfolding repayments_of
shop_unpaid = refl

shop_known : is_some (find_advance 1 shop.advances) ≡ true
unfolding find_advance
shop_known = refl

apply-Conserves_example : Conserves shop (apply_cash_advance_repayments 7 shop)
apply-Conserves_example = apply-Conserves 7 shop shop_distinct

apply-apply_example :
    apply_cash_advance_repayments 7 (apply_cash_advance_repayments 7 shop)
    ≡ apply_cash_advance_repayments 7 shop
apply-apply_example = apply-apply 7 shop

apply-reverse_example :
    ((reverse_cash_advance_repayments 7 (apply_cash_advance_repayments 7 shop)).repayments ≡ [])
    × ((i : ℕ)
        → is_some (find_advance i advances_before) ≡ true
        → balance_of i
            (reverse_cash_advance_repayments 7 (apply_cash_advance_repayments 7 shop)).advances
          ≡ balance_of i advances_before)
apply-reverse_example = apply-reverse 7 shop shop_distinct shop_unpaid

abbrev repaid_shop : Store
repaid_shop = record shop {
  repayments =
      record {
        cash_advance_id = 1;
        payroll_run_id = some 7;
        payment_date = codes "2026-01-15";
        amount = 10000;
      }
      ∷ [];
}

shop-IsBalanced : All IsBalanced shop.items
unfolding ◌-ℤ◌ ◌+ℤ◌
shop-IsBalanced = (refl, tt)

shop_lines : All (λ line. pos 0 ≤ℤ line.amount) (lines shop.items)
unfolding lines total ◌+ℤ◌
shop_lines = (
  omega arith,
  (
    omega arith,
    (
      omega arith,
      (
        omega arith,
        (
          omega arith,
          (omega arith, (omega arith, (omega arith, (omega arith, (omega arith, tt))))),
        ),
      ),
    ),
  ),
)

payable-residue_example : payable_balance (posted_lines shop.items) ≡ pos 30000
unfolding total ◌+ℤ◌
payable-residue_example = payable-residue shop.items shop-IsBalanced shop_lines

abbrev paid_books : Books
paid_books = changed_books 7 approved paid pay_request books

pay_done : update_payroll_status 7 pay_request books ≡ changed paid_books
unfolding update_payroll_status update_run change guard allowed same_status is_final is_superseded
    is_revision find_run normalize_payroll_status strip lstrip rstrip is_space eq_text
pay_done = refl

six_found : find_run 6 shop.runs ≡ some run_six
unfolding find_run
six_found = refl

six_final : is_final paid ≡ true
unfolding is_final
six_final = refl

-- A paid run is not opened again, and blockers stop a payment.
reopen_refused :
    update_payroll_status 6
      (record pay_request { status = codes "Draft"; reason = some (codes "typo") })
      books
    ≡ refused finalized
unfolding update_payroll_status update_run change guard allowed same_status is_final is_superseded
    is_revision find_run normalize_payroll_status strip lstrip rstrip is_space eq_text
reopen_refused = refl

blocked : update_payroll_status 7 (record pay_request { blockers = 2 }) books ≡ refused has_blockers
unfolding update_payroll_status update_run change guard allowed same_status is_final is_superseded
    is_revision find_run normalize_payroll_status strip lstrip rstrip is_space eq_text
blocked = refl

status-change_example :
    (run : Run) × (run' : Run) × (find_run 7 shop.runs ≡ some run)
    × (find_run 7 paid_books.store.runs ≡ some run')
    × (run'.status ≡ normalize_payroll_status (codes " Paid "))
    × (allowed run.status run'.status ≡ true)
    × (is_superseded run ≡ false)
    × ((j : ℕ) → j ≢ 7 → find_run j paid_books.store.runs ≡ find_run j shop.runs)
status-change_example = status-change 7 pay_request books paid_books pay_done

final_stays_example :
    (run' : Run) × (find_run 6 paid_books.store.runs ≡ some run') × (is_final run'.status ≡ true)
final_stays_example =
    final_stays 7 pay_request books paid_books 6 run_six pay_done six_found six_final

money-moves_example :
    IsSameMoney books paid_books
    ⊎ ((normalize_payroll_status (codes " Paid ") ≡ paid)
        × ((run : Run) × (find_run 7 shop.runs ≡ some run)
            × (run.status ≡ approved)
            × (is_revision run ≡ false)
            × (pay_request.blockers ≡ 0)))
money-moves_example = money-moves 7 pay_request books paid_books pay_done
