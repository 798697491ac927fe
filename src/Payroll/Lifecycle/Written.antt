-- ===== src/Payroll/Lifecycle/Written.antt =====
-- What a change of status writes to the table of runs.
use hidden_oasis_staff_payro.Common.{
  ℕ, ◌≡◌, ◌≢◌, refl, ap, ◌∙◌, Option, none, some, List, [], ◌∷◌, map, arith, ◌-◌, min, leb, if_both,
  pos_part, select,
}
use hidden_oasis_staff_payro.Payroll.Store.{
  Store, Run, Item, Advance, RunStatus, draft, for_owner_review, approved, paid, locked, unknown,
  Repayment, find_run, run_where_id,
}
use hidden_oasis_staff_payro.Payroll.Advances.{
  apply_cash_advance_repayments, reverse_cash_advance_repayments, deduct, repay, deduct_items,
  awaits_release, deductible_advances, repayments_of, is_item_of,
}
use hidden_oasis_staff_payro.Payroll.Lifecycle.{
  Books, Request, is_final, paid_run, approved_run, locked_run, reviewed_run, reopened_run,
  hand_off, reopen, pay, effects,
}

deduct-runs : (run : Run) (l : List Advance) (n : ℕ) (s : Store) → (deduct run l n s).runs ≡ s.runs
unfolding deduct repay
deduct-runs run [] n s = refl
deduct-runs run (ca ∷ l) n s =
    let m = min n ca.outstanding_balance in
    let same = λ (t : Store). t.runs ≡ s.runs in
    if_both same (leb n 0) refl (
      if_both same (awaits_release run ca) (deduct-runs run l n s)
        (deduct-runs run l (n - m) (repay run ca m s)))

deduct_items-runs :
    (run : Run) (items : List Item) (s : Store) → (deduct_items run items s).runs ≡ s.runs
unfolding deduct_items
deduct_items-runs run [] s = refl
deduct_items-runs run (item ∷ items) s =
    let l = deductible_advances item.employee_id s.advances in
    let n = pos_part item.cash_advance_deduction in
    deduct_items-runs run items (deduct run l n s) ∙ deduct-runs run l n s

apply-runs : (run_id : ℕ) (s : Store) → (apply_cash_advance_repayments run_id s).runs ≡ s.runs
unfolding apply_cash_advance_repayments
apply-runs run_id s = by_both (repayments_of run_id s.repayments) refl (find_run run_id s.runs) refl
  where
    by_both :
        (l : List Repayment)
        → repayments_of run_id s.repayments ≡ l
        → (o : Option Run) → find_run run_id s.runs ≡ o
        → (apply_cash_advance_repayments run_id s).runs ≡ s.runs
    by_both (p ∷ l) e o f = rw (e, apply_cash_advance_repayments) refl
    by_both [] e none f = rw (e, f, apply_cash_advance_repayments) refl
    by_both [] e (some run) f =
        rw (e, f, apply_cash_advance_repayments)
          (deduct_items-runs run (select (is_item_of run_id) s.items) s)

hand_off-store :
    (run_id : ℕ) (status : RunStatus) (req : Request) (b : Books)
    → (hand_off run_id status req b).store ≡ b.store
unfolding hand_off
hand_off-store run_id status req b = ground arith

-- The table is updated at the one run, whose new status is the one asked for.
pub record IsWritten (run_id : ℕ) (status : RunStatus) (runs runs' : List Run) : Type 0 where
  pub write : Run → Run
  pub status_set : (r : Run) → (write r).status ≡ status
  pub id_kept : (r : Run) → (write r).id ≡ r.id
  pub written : runs' ≡ map (run_where_id run_id write) runs

pub effects-IsWritten :
    (run_id : ℕ) (old status : RunStatus) (req : Request) (b : Books)
    → IsWritten run_id status b.store.runs (effects run_id old status req b).store.runs
unfolding effects pay reopen paid_run approved_run locked_run reviewed_run reopened_run
    reverse_cash_advance_repayments
effects-IsWritten run_id old paid req b = record {
  write = paid_run req.now;
  status_set = λ r. refl;
  id_kept = λ r. refl;
  written =
      ap (λ s. s.runs) (hand_off-store run_id paid req _)
      ∙ ap (map (run_where_id run_id (paid_run req.now))) (apply-runs run_id b.store);
}
effects-IsWritten run_id old approved req b = record {
  write = approved_run req.actor req.now;
  status_set = λ r. refl;
  id_kept = λ r. refl;
  written = ap (λ s. s.runs) (hand_off-store run_id approved req _);
}
effects-IsWritten run_id old locked req b = record {
  write = locked_run req.now;
  status_set = λ r. refl;
  id_kept = λ r. refl;
  written = refl;
}
effects-IsWritten run_id old for_owner_review req b = record {
  write = reviewed_run req.actor req.now;
  status_set = λ r. refl;
  id_kept = λ r. refl;
  written = refl;
}
effects-IsWritten run_id old draft req b = record {
  write = reopened_run req.reason;
  status_set = λ r. refl;
  id_kept = λ r. refl;
  written =
      if_both
        (λ (x : Books).
          map (run_where_id run_id (reopened_run req.reason)) x.store.runs
          ≡ map (run_where_id run_id (reopened_run req.reason)) b.store.runs)
        (is_final old) refl refl;
}
effects-IsWritten run_id old (unknown t) req b = record {
  write = λ r. record r { status = unknown t };
  status_set = λ r. refl;
  id_kept = λ r. refl;
  written = refl;
}

module _ {run_id : ℕ} {status : RunStatus} {runs runs' : List Run}
    (w : IsWritten run_id status runs runs') where
  find-map_ne :
      (j : ℕ) (l : List Run)
      → j ≢ run_id
      → find_run j (map (run_where_id run_id w.write) l) ≡ find_run j l
  unfolding find_run
  find-map_ne j [] ne = refl
  find-map_ne j (r ∷ l) ne = ground (arith, w.id_kept r, find-map_ne j l ne)

  find-map :
      (run : Run) (l : List Run)
      → find_run run_id l ≡ some run
      → find_run run_id (map (run_where_id run_id w.write) l) ≡ some (w.write run)
  unfolding find_run
  find-map run [] h = cc
  find-map run (r ∷ l) h = ground (arith, w.id_kept r, find-map run l)

  pub written_others : (j : ℕ) → j ≢ run_id → find_run j runs' ≡ find_run j runs
  written_others j ne = rw w.written (find-map_ne j runs ne)

  pub written_run :
      (run : Run) → find_run run_id runs ≡ some run → find_run run_id runs' ≡ some (w.write run)
  written_run run h = rw w.written (find-map run runs h)
