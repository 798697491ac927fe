-- ===== src/Payroll/Advances/Repeated.antt =====
-- A run repays the advances once, however often its repayments are applied.
use hidden_oasis_staff_payro.Common.{
  ℕ, ◌-◌, ◌≡◌, ◌⊎◌, inl, inr, refl, sym, subst, ap, ◌∙◌, Option, none, some, List, [], ◌∷◌, ◌++◌,
  select, arith, leb, if_both, pos_part, min,
}
use hidden_oasis_staff_payro.Payroll.Store.{Store, Run, Item, Advance, Repayment, find_run}
use hidden_oasis_staff_payro.Payroll.Advances.{
  repayments_of, of_run, deductible_advances, awaits_release, deduction, repay, deduct, is_item_of,
  deduct_items, apply_cash_advance_repayments,
}
use hidden_oasis_staff_payro.Payroll.Advances.Reversed.{find_run-id}

-- The run has a repayment.
abbrev HasOwn : ℕ → Store → Type 0
HasOwn run_id s =
    (p : Repayment) × (ps : List Repayment) × (repayments_of run_id s.repayments ≡ p ∷ ps)

own-append :
    (run_id : ℕ) (ps : List Repayment) (p : Repayment)
    → select (of_run run_id) (ps ++ (p ∷ []))
      ≡ select (of_run run_id) ps ++ select (of_run run_id) (p ∷ [])
own-append run_id [] p = refl
own-append run_id (q ∷ ps) p = ground (arith, own-append run_id ps p)

nonempty :
    (l : List Repayment) (p : Repayment)
    → (q : Repayment) × (qs : List Repayment) × (l ++ (p ∷ []) ≡ q ∷ qs)
nonempty [] p = (p, [], refl)
nonempty (q ∷ l) p = (q, l ++ (p ∷ []), refl)

repay-HasOwn : (run : Run) (ca : Advance) (n : ℕ) (s : Store) → HasOwn run.id (repay run ca n s)
unfolding repay repayments_of deduction
repay-HasOwn run ca n s =
    let own : select (of_run run.id) (deduction run ca n ∷ []) ≡ deduction run ca n ∷ [] =
      ground arith in
    let (q, qs, e) = nonempty (select (of_run run.id) s.repayments) (deduction run ca n) in
    (
      q,
      qs,
      own-append run.id s.repayments (deduction run ca n)
          ∙ ap (λ l. select (of_run run.id) s.repayments ++ l) own
          ∙ e,
    )

deduct-HasOwn :
    (run : Run) (l : List Advance) (remaining : ℕ) (s : Store)
    → HasOwn run.id s
    → HasOwn run.id (deduct run l remaining s)
unfolding deduct
deduct-HasOwn run [] remaining s h = h
deduct-HasOwn run (ca ∷ l) remaining s h =
    let n = min remaining ca.outstanding_balance in
    if_both (HasOwn run.id) (leb remaining 0) h (
      if_both (HasOwn run.id) (awaits_release run ca) (deduct-HasOwn run l remaining s h)
        (deduct-HasOwn run l (remaining - n) (repay run ca n s) (repay-HasOwn run ca n s)))

-- Nothing was done, or a repayment of the run was recorded.
abbrev Done : ℕ → Store → Store → Type 0
Done run_id s t = (t ≡ s) ⊎ HasOwn run_id t

deduct-Done :
    (run : Run) (l : List Advance) (remaining : ℕ) (s : Store)
    → Done run.id s (deduct run l remaining s)
unfolding deduct
deduct-Done run [] remaining s = inl refl
deduct-Done run (ca ∷ l) remaining s =
    let n = min remaining ca.outstanding_balance in
    if_both (Done run.id s) (leb remaining 0) (inl refl) (
      if_both (Done run.id s) (awaits_release run ca) (deduct-Done run l remaining s)
        (inr (deduct-HasOwn run l (remaining - n) (repay run ca n s) (repay-HasOwn run ca n s))))

deduct_items-HasOwn :
    (run : Run) (items : List Item) (s : Store)
    → HasOwn run.id s
    → HasOwn run.id (deduct_items run items s)
unfolding deduct_items
deduct_items-HasOwn run [] s h = h
deduct_items-HasOwn run (item ∷ items) s h =
    let l = deductible_advances item.employee_id s.advances in
    let n = pos_part item.cash_advance_deduction in
    deduct_items-HasOwn run items (deduct run l n s) (deduct-HasOwn run l n s h)

deduct_items-Done :
    (run : Run) (items : List Item) (s : Store) → Done run.id s (deduct_items run items s)
unfolding deduct_items
deduct_items-Done run [] s = inl refl
deduct_items-Done run (item ∷ items) s =
    let l = deductible_advances item.employee_id s.advances in
    let n = pos_part item.cash_advance_deduction in
    elim (deduct-Done run l n s) [
      | inl e ↦
          subst (λ t. Done run.id s (deduct_items run items t)) (sym e)
            (deduct_items-Done run items s)
      | inr h ↦ inr (deduct_items-HasOwn run items (deduct run l n s) h)
    ]

apply-Done : (run_id : ℕ) (s : Store) → Done run_id s (apply_cash_advance_repayments run_id s)
unfolding apply_cash_advance_repayments
apply-Done run_id s = by_repayments (repayments_of run_id s.repayments) refl
  where
    by_run :
        (o : Option Run)
        → find_run run_id s.runs ≡ o
        → repayments_of run_id s.repayments ≡ []
        → Done run_id s (apply_cash_advance_repayments run_id s)
    by_run none e own = rw (own, e, apply_cash_advance_repayments) (inl refl)
    by_run (some run) e own =
        let items = select (is_item_of run_id) s.items in
        rw (own, e, apply_cash_advance_repayments)
          (subst (λ k. Done k s (deduct_items run items s)) (find_run-id run_id s.runs run e)
            (deduct_items-Done run items s))

    by_repayments :
        (l : List Repayment)
        → repayments_of run_id s.repayments ≡ l
        → Done run_id s (apply_cash_advance_repayments run_id s)
    by_repayments (p ∷ l) e = rw (e, apply_cash_advance_repayments) (inl refl)
    by_repayments [] e = by_run (find_run run_id s.runs) refl e

own-apply : (run_id : ℕ) (s : Store) → HasOwn run_id s → apply_cash_advance_repayments run_id s ≡ s
unfolding apply_cash_advance_repayments
own-apply run_id s (p, ps, e) = rw (e, apply_cash_advance_repayments) refl

-- Applying the repayments of a run a second time changes nothing.
pub apply-apply :
    (run_id : ℕ) (s : Store)
    → apply_cash_advance_repayments run_id (apply_cash_advance_repayments run_id s)
      ≡ apply_cash_advance_repayments run_id s
apply-apply run_id s = elim (apply-Done run_id s) [
  | inl e ↦ ap (apply_cash_advance_repayments run_id) e
  | inr h ↦ own-apply run_id (apply_cash_advance_repayments run_id s) h
]
