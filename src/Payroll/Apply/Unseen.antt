-- ===== src/Payroll/Apply/Unseen.antt =====
-- While a run is not paid, its repayments count for no balance.
use hidden_oasis_staff_payro.Common.{
  ℕ, ◌≡◌, refl, sym, subst, ap, ◌∙◌, inl, inr, Bool, true, false, not, ◌&&◌, Option, none, some,
  List, [], ◌∷◌, ◌++◌, map, All, ◌==◌, ==_iff, if◌then◌else◌, value_or, sum_by-append, arith,
  Bool-cases, ltb, eq_text,
}
use hidden_oasis_staff_payro.Payroll.Store.{Item}
use hidden_oasis_staff_payro.Payroll.Ledger.{
  Ledger, LedgerRun, LedgerAdvance, LedgerRepayment, Balance, balance_from, calculate_balance,
  confirmed_new_repayments, is_confirmed, run_is_paid, find_ledger_advance, recalculate_balance,
  recalculated_advance, ledger_where_id, LedgerRun, balanced_advance, opened_advance, first_or,
}
use hidden_oasis_staff_payro.Payroll.Ledger.Recalculated.{
  calculated, find-recalculated, balance_from-again,
}
use hidden_oasis_staff_payro.Payroll.Manual.Posting.{relisted}
use hidden_oasis_staff_payro.Payroll.Receipt.{insert_repayment}
use hidden_oasis_staff_payro.Payroll.Settle.Conserved.{calculated-found, relisted-other}
use hidden_oasis_staff_payro.Payroll.Deduct.{
  Call, is_repayment_of, later_row, last_repayment, payroll_repayment, find_ledger_run,
}

abbrev pub IsOpened : LedgerAdvance → Type 0
IsOpened a = (n : ℕ) × (a.ledger_opening_balance ≡ some n)

-- A repayment of the run that is not active.
abbrev pub is_reversed_of : ℕ → LedgerRepayment → Bool
is_reversed_of run_id r =
    (elim r.payroll_run_id [ none ↦ false | some i ↦ i == run_id ]) && not (value_or r.active true)

abbrev pub IsUnpaid : List LedgerRun → ℕ → Type 0
IsUnpaid runs run_id =
    (r : LedgerRepayment) → r.payroll_run_id ≡ some run_id → run_is_paid runs r ≡ false

-- The state of the loop: what was calculated at the start is still calculated.
pub record IsUnseen (run_id : ℕ) (start : Ledger) (l : Ledger) : Type 0 where
  pub opened : All IsOpened l.advances
  pub unreversed : All (λ r. is_reversed_of run_id r ≡ false) l.repayments
  pub same_runs : l.runs ≡ start.runs
  pub kept :
      (u : ℕ) (b : Balance) → calculate_balance start u ≡ some b → calculate_balance l u ≡ some b

pub find-IsOpened :
    (i : ℕ) (l : List LedgerAdvance) (a : LedgerAdvance)
    → All IsOpened l
    → find_ledger_advance i l ≡ some a
    → IsOpened a
unfolding find_ledger_advance
find-IsOpened i [] a all h = absurd (cc h)
find-IsOpened i (c ∷ l) a (o, all) h = elim (Bool-cases (c.id == i)) [
  | inl here ↦
      let same : some c ≡ some a = rw (here, if◌then◌else◌) at h in
      let to : c ≡ a = cc same in subst IsOpened to o
  | inr other ↦
      let later : find_ledger_advance i l ≡ some a = rw (other, if◌then◌else◌) at h in
      find-IsOpened i l a all later
]

pub relisted-IsOpened :
    (i now : ℕ) (b : Balance) (l : List LedgerAdvance)
    → All IsOpened l
    → All IsOpened (map (ledger_where_id i (recalculated_advance b now)) l)
unfolding recalculated_advance
relisted-IsOpened i now b [] all = tt
relisted-IsOpened i now b (c ∷ l) ((n, o), all) =
    ((n, ground (arith, o)), relisted-IsOpened i now b l all)

pub All-append :
    (run_id : ℕ) (l : List LedgerRepayment) (r : LedgerRepayment)
    → All (λ r. is_reversed_of run_id r ≡ false) l
    → is_reversed_of run_id r ≡ false
    → All (λ r. is_reversed_of run_id r ≡ false) (l ++ r ∷ [])
All-append run_id [] r all h = (h, tt)
All-append run_id (x ∷ l) r (k, all) h = (k, All-append run_id l r all h)

abbrev pub IsActive : LedgerRepayment → Type 0
IsActive r = value_or r.active true ≡ true

of_run-IsActive :
    (advance_id run_id : ℕ) (r : LedgerRepayment)
    → is_repayment_of advance_id run_id r ≡ true
    → is_reversed_of run_id r ≡ false
    → IsActive r
of_run-IsActive advance_id run_id r h k = ground arith

last-step :
    (x r : LedgerRepayment) (o : Option LedgerRepayment) (test : Bool)
    → (test ≡ true → IsActive x)
    → ((y : LedgerRepayment) → o ≡ some y → IsActive y)
    → (if test then later_row x o else o) ≡ some r
    → IsActive r
last-step x r none true here later h = let to : x ≡ r = cc h in subst IsActive to (here refl)
last-step x r (some y) true here later h = elim (Bool-cases (ltb x.id y.id)) [
  | inl after ↦ let out : some y ≡ some r = rw (after, if◌then◌else◌) at h in later r out
  | inr before ↦
      let out : some x ≡ some r = rw (before, if◌then◌else◌) at h in
      let to : x ≡ r = cc out in subst IsActive to (here refl)
]
last-step x r o false here later h = later r h

-- The last repayment of the run for an advance is active, if there is one.
pub last-IsActive :
    (advance_id run_id : ℕ) (l : List LedgerRepayment) (r : LedgerRepayment)
    → All (λ r. is_reversed_of run_id r ≡ false) l
    → last_repayment advance_id run_id l ≡ some r
    → IsActive r
unfolding last_repayment
last-IsActive advance_id run_id [] r all h = absurd (cc h)
last-IsActive advance_id run_id (x ∷ l) r (k, all) h =
    last-step x r (last_repayment advance_id run_id l) (is_repayment_of advance_id run_id x)
      (λ here. of_run-IsActive advance_id run_id x here k)
      (λ y e. last-IsActive advance_id run_id l y all e) h

pub payroll-unconfirmed :
    (c : Call) (item : Item) (a : LedgerAdvance) (amount id u : ℕ) (runs : List LedgerRun)
    → IsUnpaid runs c.run.id
    → is_confirmed runs u (payroll_repayment c item a amount id) ≡ false
unfolding is_confirmed payroll_repayment eq_text
payroll-unconfirmed c item a amount id u runs unpaid =
    let r = payroll_repayment c item a amount id in
    let p : run_is_paid runs r ≡ false = unpaid r refl in ground (arith, p)

pub inserted-sum :
    (l : Ledger) (u : ℕ) (r : LedgerRepayment)
    → is_confirmed l.runs u r ≡ false
    → confirmed_new_repayments (insert_repayment r l) u ≡ confirmed_new_repayments l u
unfolding confirmed_new_repayments insert_repayment
inserted-sum l u r h =
    let counted = λ (x : LedgerRepayment). if is_confirmed l.runs u x then x.amount else 0 in
    let here : counted r ≡ 0 = rw (h, if◌then◌else◌) refl in
    omega (arith, sum_by-append counted l.repayments (r ∷ []), here)

-- A recalculation alone keeps what is calculated.
pub recalculated-same :
    (t now : ℕ) (l : Ledger) (o : LedgerAdvance)
    → All IsOpened l.advances
    → find_ledger_advance t l.advances ≡ some o
    → (u : ℕ) (b : Balance) → calculate_balance l u ≡ some b
    → calculate_balance (relisted t now (balance_from o (confirmed_new_repayments l t)) l) u
      ≡ some b
unfolding confirmed_new_repayments
recalculated-same t now l o opened found u b h =
    let k = confirmed_new_repayments l t in
    let current = balance_from o k in
    let l1 = relisted t now current l in
    let (n, opening) = find-IsOpened t l.advances o opened found in
    let (c, e) = calculated-found l u b h in
    elim (Bool-cases (t == u)) [
      | inl same ↦
          let found1 = find-recalculated t now current l.advances o found in
          let kept : calculate_balance l1 t ≡ calculate_balance l t =
            calculated l1 t (recalculated_advance current now o) found1
            ∙ ap some (balance_from-again o k now n opening)
            ∙ sym (calculated l t o found) in
          subst (λ x. calculate_balance l1 x ≡ calculate_balance l x) ((==_iff t u).0 same) kept ∙ h
      | inr other ↦
          calculated l1 u c (relisted-other t u now current l c (ground arith) e)
          ∙ sym (calculated l u c e)
          ∙ h
    ]

pub lost-advance :
    (l : Ledger) (i now : ℕ)
    → find_ledger_advance i l.advances ≡ none
    → recalculate_balance l i now ≡ none
unfolding recalculate_balance calculate_balance
lost-advance l i now h = rw (h, recalculate_balance, calculate_balance) refl

pub ensured-IsOpened :
    (l : List LedgerAdvance) → All IsOpened (map (λ a. balanced_advance (opened_advance a)) l)
unfolding balanced_advance opened_advance
ensured-IsOpened [] = tt
ensured-IsOpened (a ∷ l) = (
  (
    first_or a.ledger_opening_balance
        (first_or a.outstanding_balance (first_or a.remaining_balance a.amount)),
    refl,
  ),
  ensured-IsOpened l,
)

pub find_ledger_run-id :
    (i : ℕ) (runs : List LedgerRun) (r : LedgerRun) → find_ledger_run i runs ≡ some r → r.id ≡ i
unfolding find_ledger_run
find_ledger_run-id i [] r h = absurd (cc h)
find_ledger_run-id i (x ∷ runs) r h = ground (arith, find_ledger_run-id i runs r)
