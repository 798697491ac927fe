-- ===== src/Payroll/Advances/Reversed.antt =====
-- Reversing the repayments of a run, and applying them and taking them back.
use hidden_oasis_staff_payro.Common.{
  ℕ, ◌+◌, ◌-◌, ◌≡◌, refl, sym, subst, ◌∙◌, ap, Bool, true, false, not, Option, none, some, List, [],
  ◌∷◌, ◌++◌, map, select, arith, is_some, ◌==◌, leb, if_both, pos_part, if◌then◌else◌, min,
}
use hidden_oasis_staff_payro.Payroll.Store.{
  Store, Run, Item, Advance, Repayment, find_advance, find_run, advance_where_id,
}
use hidden_oasis_staff_payro.Payroll.Advances.{
  repayments_of, of_run, deductible_advances, awaits_release, deduction, repay, deduct, is_item_of,
  deduct_items, apply_cash_advance_repayments, restored_advance, restore, restore_all,
  reverse_cash_advance_repayments,
}
use hidden_oasis_staff_payro.Payroll.Advances.Rows.{AreDistinct, find_advance-id, update-is_some}
use hidden_oasis_staff_payro.Payroll.Advances.Conserved.{
  balance_of, amount_to, repaid_to, owed, restored-KeepsId, updated-balance, other-balance,
  current-balance, apply-Conserves,
}

restore-is_some :
    (p : Repayment) (l : List Advance) (i : ℕ)
    → is_some (find_advance i (restore p l)) ≡ is_some (find_advance i l)
unfolding restore
restore-is_some p l i = by_find (find_advance p.cash_advance_id l) refl
  where
    by_find :
        (o : Option Advance)
        → find_advance p.cash_advance_id l ≡ o
        → is_some (find_advance i (restore p l)) ≡ is_some (find_advance i l)
    by_find none e = rw (e, restore) refl
    by_find (some ca) e =
        rw (e, restore)
          (update-is_some ca.id (restored_advance p.amount ca) (restored-KeepsId p.amount ca) i l)

restored-balance :
    (n : ℕ) (ca : Advance) (l : List Advance) (i j : ℕ)
    → find_advance j l ≡ some ca
    → balance_of i (map (advance_where_id ca.id (restored_advance n ca)) l)
      ≡ balance_of i l + (if j == i then n else 0)
unfolding restored_advance
restored-balance n ca l i j e =
    let f = restored_advance n ca in
    let same_id = find_advance-id j l ca e in
    let current : find_advance ca.id l ≡ some ca =
      subst (λ k. find_advance k l ≡ some ca) (sym same_id) e in
    ground (
      arith,
      same_id,
      updated-balance ca.id f (restored-KeepsId n ca) l ca current,
      other-balance ca.id f (restored-KeepsId n ca) l i,
      current-balance l ca current,
    )

restore-balance :
    (p : Repayment) (l : List Advance) (i : ℕ)
    → is_some (find_advance i l) ≡ true
    → balance_of i (restore p l) ≡ balance_of i l + amount_to i p
unfolding restore
restore-balance p l i known = by_find (find_advance p.cash_advance_id l) refl
  where
    by_find :
        (o : Option Advance)
        → find_advance p.cash_advance_id l ≡ o
        → balance_of i (restore p l) ≡ balance_of i l + amount_to i p
    by_find none e = rw (e, restore) (ground arith)
    by_find (some ca) e = rw (e, restore) (restored-balance p.amount ca l i p.cash_advance_id e)

restore_all-balance :
    (ps : List Repayment) (l : List Advance) (i : ℕ)
    → is_some (find_advance i l) ≡ true
    → balance_of i (restore_all ps l) ≡ balance_of i l + repaid_to i ps
unfolding restore_all repaid_to
restore_all-balance [] l i known = omega arith
restore_all-balance (p ∷ ps) l i known = omega (
  arith,
  restore_all-balance ps (restore p l) i (restore-is_some p l i ∙ known),
  restore-balance p l i known,
)

select-repaid :
    (i : ℕ) (b : Repayment → Bool) (ps : List Repayment)
    → repaid_to i ps ≡ repaid_to i (select b ps) + repaid_to i (select (λ p. not (b p)) ps)
unfolding repaid_to
select-repaid i b [] = refl
select-repaid i b (p ∷ ps) = ground (arith, select-repaid i b ps)

-- Reversing the repayments of a run leaves what is owed on every advance of the table, its balance plus its repayments, as it was.
reverse-owed :
    (run_id i : ℕ) (s : Store)
    → is_some (find_advance i s.advances) ≡ true
    → owed i (reverse_cash_advance_repayments run_id s) ≡ owed i s
unfolding reverse_cash_advance_repayments owed repayments_of
reverse-owed run_id i s known = omega (
  arith,
  restore_all-balance (select (of_run run_id) s.repayments) s.advances i known,
  select-repaid i (of_run run_id) s.repayments,
)

-- The repayments of the other runs, and those without a run.
abbrev pub other_repayments : ℕ → Store → List Repayment
other_repayments run_id s = select (λ p. not (of_run run_id p)) s.repayments

select-append :
    (b : Repayment → Bool) (ps : List Repayment) (p : Repayment)
    → b p ≡ false
    → select b (ps ++ (p ∷ [])) ≡ select b ps
select-append b [] p h = rw h refl
select-append b (q ∷ ps) p h = ground (arith, select-append b ps p h)

deduct-others :
    (run : Run) (l : List Advance) (remaining : ℕ) (s : Store)
    → other_repayments run.id (deduct run l remaining s) ≡ other_repayments run.id s
unfolding deduct repay deduction
deduct-others run [] remaining s = refl
deduct-others run (ca ∷ l) remaining s =
    let n = min remaining ca.outstanding_balance in
    let same = λ (t : Store). other_repayments run.id t ≡ other_repayments run.id s in
    if_both same (leb remaining 0) refl (
      if_both same (awaits_release run ca) (deduct-others run l remaining s) (
        deduct-others run l (remaining - n) (repay run ca n s)
        ∙ select-append (λ p. not (of_run run.id p)) s.repayments (deduction run ca n)
            (ground arith)))

deduct_items-others :
    (run : Run) (items : List Item) (s : Store)
    → other_repayments run.id (deduct_items run items s) ≡ other_repayments run.id s
unfolding deduct_items
deduct_items-others run [] s = refl
deduct_items-others run (item ∷ items) s =
    let l = deductible_advances item.employee_id s.advances in
    deduct_items-others run items (deduct run l (pos_part item.cash_advance_deduction) s)
    ∙ deduct-others run l (pos_part item.cash_advance_deduction) s

pub find_run-id : (i : ℕ) (l : List Run) (r : Run) → find_run i l ≡ some r → r.id ≡ i
unfolding find_run
find_run-id i [] r h = cc
find_run-id i (q ∷ l) r h = ground (arith, find_run-id i l r)

apply-others :
    (run_id : ℕ) (s : Store)
    → repayments_of run_id s.repayments ≡ []
    → other_repayments run_id (apply_cash_advance_repayments run_id s) ≡ other_repayments run_id s
unfolding apply_cash_advance_repayments
apply-others run_id s own = by_run (find_run run_id s.runs) refl
  where
    by_run :
        (o : Option Run)
        → find_run run_id s.runs ≡ o
        → other_repayments run_id (apply_cash_advance_repayments run_id s)
          ≡ other_repayments run_id s
    by_run none e = rw (own, e, apply_cash_advance_repayments) refl
    by_run (some run) e =
        let items = select (is_item_of run_id) s.items in
        rw (own, e, apply_cash_advance_repayments)
          (subst (λ k. other_repayments k (deduct_items run items s) ≡ other_repayments k s)
            (find_run-id run_id s.runs run e) (deduct_items-others run items s))

no_own :
    (b : Repayment → Bool) (ps : List Repayment)
    → select b ps ≡ []
    → select (λ p. not (b p)) ps ≡ ps
no_own b [] h = refl
no_own b (p ∷ ps) h = ground (arith, no_own b ps)

-- Where a run has no repayments and no two advances have one id, applying its repayments and
-- reversing them gives back the repayments, and the balance of every advance of the table.
pub apply-reverse :
    (run_id : ℕ) (s : Store)
    → AreDistinct s.advances
    → repayments_of run_id s.repayments ≡ []
    → ((reverse_cash_advance_repayments run_id (apply_cash_advance_repayments run_id s)).repayments
        ≡ s.repayments)
      × ((i : ℕ)
          → is_some (find_advance i s.advances) ≡ true
          → balance_of i
              (reverse_cash_advance_repayments run_id
                (apply_cash_advance_repayments run_id s)).advances
            ≡ balance_of i s.advances)
unfolding reverse_cash_advance_repayments repayments_of owed
apply-reverse run_id s d own =
    let t = apply_cash_advance_repayments run_id s in
    let c = apply-Conserves run_id s d in
    let same : (reverse_cash_advance_repayments run_id t).repayments ≡ s.repayments =
      apply-others run_id s own ∙ no_own (of_run run_id) s.repayments own in
    (
      same,
      λ i known. omega (
        arith,
        c.same_owed i,
        reverse-owed run_id i t (c.same_advances i ∙ known),
        ap (repaid_to i) same,
      ),
    )
