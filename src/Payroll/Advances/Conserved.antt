-- ===== src/Payroll/Advances/Conserved.antt =====
-- What is owed on an advance is conserved: its balance and the repayments of it add up to the same.
use hidden_oasis_staff_payro.Common.{
  ℕ, ◌+◌, ◌-◌, ◌≤◌, ◌≡◌, ◌≢◌, refl, sym, ◌∙◌, min, Option, none, some, List, [], ◌∷◌, map, select,
  sum_by, sum_by-append, arith, All, ◌==◌, if◌then◌else◌, leb, if_both, is_some, pos_part,
}
use hidden_oasis_staff_payro.Payroll.Store.{
  Store, Run, Item, Advance, Repayment, find_advance, find_run, advance_where_id,
}
use hidden_oasis_staff_payro.Payroll.Advances.{
  repayments_of, deductible_advances, awaits_release, deducted_advance, deduction, repay, deduct,
  is_item_of, deduct_items, apply_cash_advance_repayments, restored_advance,
}
use hidden_oasis_staff_payro.Payroll.Advances.Rows.{
  AreDistinct, IsCurrent, KeepsId, deductible-IsCurrent, update-AreDistinct, find-update_ne,
  find-update, update-is_some,
}

unfoldable pub balance_of : ℕ → List Advance → ℕ
balance_of i advances = elim (find_advance i advances) [ none ↦ 0 | some a ↦ a.outstanding_balance ]

abbrev pub amount_to : ℕ → Repayment → ℕ
amount_to i p = if p.cash_advance_id == i then p.amount else 0

unfoldable pub repaid_to : ℕ → List Repayment → ℕ
repaid_to i repayments = sum_by (amount_to i) repayments

-- What is owed on an advance, with what was repaid of it.
unfoldable pub owed : ℕ → Store → ℕ
unfolding balance_of repaid_to
owed i s = balance_of i s.advances + repaid_to i s.repayments

deducted-KeepsId : (n : ℕ) (ca : Advance) → KeepsId (deducted_advance n ca)
unfolding deducted_advance
deducted-KeepsId n ca a = refl

pub restored-KeepsId : (n : ℕ) (ca : Advance) → KeepsId (restored_advance n ca)
unfolding restored_advance
restored-KeepsId n ca a = refl

module _ (j : ℕ) (f : Advance → Advance) (keeps : KeepsId f) (l : List Advance) where
  pub updated-balance :
      (a : Advance)
      → find_advance j l ≡ some a
      → balance_of j (map (advance_where_id j f) l) ≡ (f a).outstanding_balance
  unfolding balance_of
  updated-balance a h = rw (find-update j f keeps a l h, balance_of) refl

  pub other-balance : (i : ℕ) → i ≢ j → balance_of i (map (advance_where_id j f) l) ≡ balance_of i l
  unfolding balance_of
  other-balance i ne = rw (find-update_ne j f keeps i l ne, balance_of) refl

pub current-balance :
    (l : List Advance) (a : Advance) → IsCurrent l a → balance_of a.id l ≡ a.outstanding_balance
unfolding balance_of
current-balance l a h = rw (h, balance_of) refl

-- One repayment moves its amount from the balance to the repayments.
repay-owed :
    (run : Run) (ca : Advance) (n : ℕ) (s : Store) (i : ℕ)
    → IsCurrent s.advances ca
    → n ≤ ca.outstanding_balance
    → owed i (repay run ca n s) ≡ owed i s
unfolding repay deducted_advance deduction owed repaid_to
repay-owed run ca n s i current enough =
    let table = s.advances in
    let f = deducted_advance n ca in
    let split = sum_by-append (amount_to i) s.repayments (deduction run ca n ∷ []) in
    ground (
      arith,
      split,
      updated-balance ca.id f (deducted-KeepsId n ca) table ca current,
      other-balance ca.id f (deducted-KeepsId n ca) table i,
      current-balance table ca current,
    )

-- The owed amounts stay, the same advances are in the table, and ids stay distinct.
pub record Conserves (s s' : Store) : Type 0 where
  pub same_owed : (i : ℕ) → owed i s' ≡ owed i s
  pub same_advances :
      (i : ℕ) → is_some (find_advance i s'.advances) ≡ is_some (find_advance i s.advances)
  pub distinct_kept : AreDistinct s.advances → AreDistinct s'.advances

Conserves-refl : (s : Store) → Conserves s s
Conserves-refl s = record {
  same_owed = λ i. refl;
  same_advances = λ i. refl;
  distinct_kept = λ d. d;
}

Conserves-trans : (s t u : Store) → Conserves s t → Conserves t u → Conserves s u
Conserves-trans s t u a b = record {
  same_owed = λ i. b.same_owed i ∙ a.same_owed i;
  same_advances = λ i. b.same_advances i ∙ a.same_advances i;
  distinct_kept = λ d. b.distinct_kept (a.distinct_kept d);
}

repay-Conserves :
    (run : Run) (ca : Advance) (n : ℕ) (s : Store)
    → IsCurrent s.advances ca
    → n ≤ ca.outstanding_balance
    → Conserves s (repay run ca n s)
unfolding repay
repay-Conserves run ca n s current enough = record {
  same_owed = λ i. repay-owed run ca n s i current enough;
  same_advances =
      λ i. update-is_some ca.id (deducted_advance n ca) (deducted-KeepsId n ca) i s.advances;
  distinct_kept =
      λ d. update-AreDistinct ca.id (deducted_advance n ca) (deducted-KeepsId n ca) s.advances d;
}

-- A repayment leaves the other rows of the query current.
repay-IsCurrent :
    (run : Run) (ca : Advance) (n : ℕ) (s : Store) (l : List Advance)
    → All (IsCurrent s.advances) l
    → All (λ b. ca.id ≢ b.id) l
    → All (IsCurrent (repay run ca n s).advances) l
unfolding repay
repay-IsCurrent run ca n s [] c ne = tt
repay-IsCurrent run ca n s (b ∷ l) (cb, c) (nb, ne) = (
  (find-update_ne ca.id (deducted_advance n ca) (deducted-KeepsId n ca) b.id s.advances
        (λ e. nb (sym e))
      ∙ cb),
  repay-IsCurrent run ca n s l c ne,
)

min-le : (a b : ℕ) → min a b ≤ b
min-le a b = omega arith

deduct-Conserves :
    (run : Run) (l : List Advance) (remaining : ℕ) (s : Store)
    → All (IsCurrent s.advances) l
    → AreDistinct l
    → Conserves s (deduct run l remaining s)
unfolding deduct AreDistinct
deduct-Conserves run [] remaining s c d = Conserves-refl s
deduct-Conserves run (ca ∷ l) remaining s (cc1, c) (ne, d) =
    let n = min remaining ca.outstanding_balance in
    let paid_one = repay run ca n s in
    let skipped = deduct-Conserves run l remaining s c d in
    let first = repay-Conserves run ca n s cc1 (min-le remaining ca.outstanding_balance) in
    let later =
      deduct-Conserves run l (remaining - n) paid_one (repay-IsCurrent run ca n s l c ne) d in
    if_both (Conserves s) (leb remaining 0) (Conserves-refl s) (
      if_both (Conserves s) (awaits_release run ca) skipped
        (Conserves-trans s paid_one (deduct run l (remaining - n) paid_one) first later))

deduct_items-Conserves :
    (run : Run) (items : List Item) (s : Store)
    → AreDistinct s.advances
    → Conserves s (deduct_items run items s)
unfolding deduct_items
deduct_items-Conserves run [] s d = Conserves-refl s
deduct_items-Conserves run (item ∷ items) s d =
    let l = deductible_advances item.employee_id s.advances in
    let (c, dl) = deductible-IsCurrent item.employee_id s.advances d in
    let t = deduct run l (pos_part item.cash_advance_deduction) s in
    let first = deduct-Conserves run l (pos_part item.cash_advance_deduction) s c dl in
    Conserves-trans s t (deduct_items run items t) first
      (deduct_items-Conserves run items t (first.distinct_kept d))

-- Where no two advances have one id, applying the repayments of a run leaves what is owed on every
-- advance, its balance plus all its repayments, as it was, keeps the same advances in the table, and
-- keeps their ids distinct.
pub apply-Conserves :
    (run_id : ℕ) (s : Store)
    → AreDistinct s.advances
    → Conserves s (apply_cash_advance_repayments run_id s)
unfolding apply_cash_advance_repayments
apply-Conserves run_id s d = by_repayments (repayments_of run_id s.repayments) refl
  where
    by_run :
        (o : Option Run)
        → find_run run_id s.runs ≡ o
        → repayments_of run_id s.repayments ≡ []
        → Conserves s (apply_cash_advance_repayments run_id s)
    by_run none e f = rw (f, e, apply_cash_advance_repayments) (Conserves-refl s)
    by_run (some run) e f =
        rw (f, e, apply_cash_advance_repayments)
          (deduct_items-Conserves run (select (is_item_of run_id) s.items) s d)

    by_repayments :
        (l : List Repayment)
        → repayments_of run_id s.repayments ≡ l
        → Conserves s (apply_cash_advance_repayments run_id s)
    by_repayments (p ∷ l) e = rw (e, apply_cash_advance_repayments) (Conserves-refl s)
    by_repayments [] e = by_run (find_run run_id s.runs) refl e
