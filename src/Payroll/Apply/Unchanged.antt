-- ===== src/Payroll/Apply/Unchanged.antt =====
-- The payment of advances by a run that is not paid yet, as a whole.
use hidden_oasis_staff_payro.Common.{
  ℕ, min, ◌≡◌, refl, sym, subst, ◌∙◌, inl, inr, false, Option, none, some, List, [], ◌∷◌, select,
  All, leb, if◌then◌else◌, Text, pos_part, arith, Bool-cases, Option-cases,
}
use hidden_oasis_staff_payro.Payroll.Store.{Item}
use hidden_oasis_staff_payro.Payroll.Ledger.{
  Ledger, LedgerAdvance, Balance, balance_from, calculate_balance, confirmed_new_repayments,
  find_ledger_advance, recalculate_balance, ensure_balances,
}
use hidden_oasis_staff_payro.Payroll.Manual.Posting.{recalculated, relisted}
use hidden_oasis_staff_payro.Payroll.Receipt.{insert_repayment}
use hidden_oasis_staff_payro.Payroll.Settle.Conserved.{calculated-found}
use hidden_oasis_staff_payro.Payroll.Settle.Offset.{recalculated-kept}
use hidden_oasis_staff_payro.Payroll.Deduct.{
  Call, last_repayment, payroll_repayment, write_repayment, repay_advance, deduct_advance,
  find_ledger_run, repayable_advances,
}
use hidden_oasis_staff_payro.Payroll.Apply.{
  advance_step, deduct_advances, apply_item, apply_items, ledger_only, is_deducted_item,
  mirrors_deductions, apply_payroll_cash_advance_repayments,
}
use hidden_oasis_staff_payro.Payroll.Apply.Unseen.{
  is_reversed_of, IsUnpaid, IsUnseen, find-IsOpened, relisted-IsOpened, All-append, lost-advance,
  ensured-IsOpened, find_ledger_run-id, last-IsActive, payroll-unconfirmed, inserted-sum,
  recalculated-same,
}

module _ (c : Call) (start : Ledger) (unpaid : IsUnpaid start.runs c.run.id) where
  abbrev pub IsUnseenAfter : Option (Ledger × ℕ) → Type 0
  IsUnseenAfter none = Unit
  IsUnseenAfter (some (l, _)) = IsUnseen c.run.id start l

  relisted-IsUnseen :
      (t : ℕ) (l : Ledger) (o : LedgerAdvance)
      → IsUnseen c.run.id start l
      → find_ledger_advance t l.advances ≡ some o
      → IsUnseen c.run.id start (relisted t c.now (balance_from o (confirmed_new_repayments l t)) l)
  relisted-IsUnseen t l o unseen found = record {
    opened =
        relisted-IsOpened t c.now (balance_from o (confirmed_new_repayments l t)) l.advances
          unseen.opened;
    unreversed = unseen.unreversed;
    same_runs = unseen.same_runs;
    kept = λ u b h. recalculated-same t c.now l o unseen.opened found u b (unseen.kept u b h);
  }

  repay-IsUnseen :
      (item : Item) (a : LedgerAdvance) (remaining : ℕ) (l : Ledger) (o : LedgerAdvance)
      → IsUnseen c.run.id start l
      → find_ledger_advance a.id l.advances ≡ some o
      → let current = balance_from o (confirmed_new_repayments l a.id) in
        IsUnseenAfter
          (repay_advance c item a none remaining (relisted a.id c.now current l, current))
  unfolding repay_advance write_repayment insert_repayment confirmed_new_repayments
      payroll_repayment
  repay-IsUnseen item a remaining l o unseen found =
      let current = balance_from o (confirmed_new_repayments l a.id) in
      let l1 = relisted a.id c.now current l in
      let amount = min remaining current.balance in
      let r = payroll_repayment c item a amount l1.next_repayment_id in
      let l2 = insert_repayment r l1 in
      let (n, opening) = find-IsOpened a.id l.advances o unseen.opened found in
      let sums : (u : ℕ) → confirmed_new_repayments l2 u ≡ confirmed_new_repayments l u = λ u.
        inserted-sum l1 u r (
          payroll-unconfirmed c item a amount l1.next_repayment_id u l.runs
            (subst (λ x. IsUnpaid x c.run.id) (sym unseen.same_runs) unpaid)) in
      let (o1, found1, keeps) = recalculated-kept a.id c.now l l2 o n opening found refl sums in
      elim (Bool-cases (leb current.balance 0)) [
        | inl settled ↦ rw (settled, if◌then◌else◌) (relisted-IsUnseen a.id l o unseen found)
        | inr owed ↦
            rw (owed, if◌then◌else◌)
              (rw (recalculated l2 a.id c.now o1 found1, repay_advance)
                (record {
                  opened =
                      relisted-IsOpened a.id c.now
                        (balance_from o1 (confirmed_new_repayments l2 a.id)) l1.advances
                        (relisted-IsOpened a.id c.now current l.advances unseen.opened);
                  unreversed = All-append c.run.id l.repayments r unseen.unreversed (ground arith);
                  same_runs = unseen.same_runs;
                  kept = λ u b h.
                      let before = unseen.kept u b h in
                      let (e, f) = calculated-found l u b before in keeps u e f ∙ before;
                }))
      ]

  deduct-IsUnseen :
      (item : Item) (a : LedgerAdvance) (remaining : ℕ) (l : Ledger)
      → IsUnseen c.run.id start l
      → IsUnseenAfter (deduct_advance c item a remaining l)
  unfolding deduct_advance
  deduct-IsUnseen item a remaining l unseen =
      elim (Option-cases (last_repayment a.id c.run.id l.repayments)) [
        | inr (r, e) ↦
            let active = last-IsActive a.id c.run.id l.repayments r unseen.unreversed e in
            rw (e, deduct_advance) (rw (active, if◌then◌else◌) unseen)
        | inl e ↦ elim (Option-cases (find_ledger_advance a.id l.advances)) [
          | inl lost ↦
              let gone : recalculate_balance l a.id c.now ≡ none = lost-advance l a.id c.now lost in
              rw (e, deduct_advance) (rw (gone, deduct_advance) tt)
          | inr (o, found) ↦
              rw (e, deduct_advance)
                (rw (recalculated l a.id c.now o found, deduct_advance)
                  (rw e (repay-IsUnseen item a remaining l o unseen found)))
        ]
      ]

  step-IsUnseen :
      (item : Item) (a : LedgerAdvance) (state : Option (Ledger × ℕ))
      → IsUnseenAfter state
      → IsUnseenAfter (advance_step c item a state)
  unfolding advance_step
  step-IsUnseen item a none h = tt
  step-IsUnseen item a (some (l, remaining)) h = elim (Bool-cases (leb remaining 0)) [
    | inl spent ↦ rw (spent, if◌then◌else◌) h
    | inr some_left ↦ rw (some_left, if◌then◌else◌) (deduct-IsUnseen item a remaining l h)
  ]

  advances-IsUnseen :
      (item : Item) (advances : List LedgerAdvance) (state : Option (Ledger × ℕ))
      → IsUnseenAfter state
      → IsUnseenAfter (deduct_advances c item advances state)
  unfolding deduct_advances
  advances-IsUnseen item [] state h = h
  advances-IsUnseen item (a ∷ advances) state h =
      advances-IsUnseen item advances (advance_step c item a state) (step-IsUnseen item a state h)

  abbrev pub IsUnseenLedger : Option Ledger → Type 0
  IsUnseenLedger none = Unit
  IsUnseenLedger (some l) = IsUnseen c.run.id start l

  only-IsUnseen :
      (state : Option (Ledger × ℕ)) → IsUnseenAfter state → IsUnseenLedger (ledger_only state)
  only-IsUnseen none h = tt
  only-IsUnseen (some (l, _)) h = h

  items-IsUnseen :
      (items : List Item) (state : Option Ledger)
      → IsUnseenLedger state
      → IsUnseenLedger (apply_items c items state)
  unfolding apply_items apply_item
  items-IsUnseen [] state h = h
  items-IsUnseen (item ∷ items) none h = items-IsUnseen items none h
  items-IsUnseen (item ∷ items) (some l) h =
      let rows = repayable_advances item.employee_id c.run.period_end l.advances in
      let first = some (l, pos_part item.cash_advance_deduction) in
      items-IsUnseen items (ledger_only (deduct_advances c item rows first))
        (only-IsUnseen (deduct_advances c item rows first) (advances-IsUnseen item rows first h))

start-IsUnseen :
    (run_id : ℕ) (before : Ledger)
    → All (λ r. is_reversed_of run_id r ≡ false) before.repayments
    → IsUnseen run_id (ensure_balances before) (ensure_balances before)
unfolding ensure_balances
start-IsUnseen run_id before unreversed = record {
  opened = ensured-IsOpened before.advances;
  unreversed = unreversed;
  same_runs = refl;
  kept = λ u b h. h;
}

-- Where no repayment of a run counts as paid and none is reversed, applying its repayments leaves
-- what is calculated for each advance as it was: they count only once the run is paid.
pub apply-unseen :
    (run_id : ℕ) (actor reference : Option Text) (today : Text) (now : ℕ) (items : List Item)
    (before l : Ledger) (u : ℕ) (b : Balance)
    → IsUnpaid before.runs run_id
    → All (λ r. is_reversed_of run_id r ≡ false) before.repayments
    → apply_payroll_cash_advance_repayments run_id actor reference today now items before ≡ some l
    → calculate_balance (ensure_balances before) u ≡ some b
    → calculate_balance l u ≡ some b
unfolding apply_payroll_cash_advance_repayments ensure_balances
apply-unseen run_id actor reference today now items before l u b unpaid unreversed h before_b =
    let start = ensure_balances before in
    elim (Option-cases (find_ledger_run run_id before.runs)) [
      | inl e ↦
          let same : some start ≡ some l = rw (e, apply_payroll_cash_advance_repayments) at h in
          let to : start ≡ l = cc same in subst (λ x. calculate_balance x u ≡ some b) to before_b
      | inr (run, e) ↦ elim (Bool-cases (mirrors_deductions run)) [
        | inl mirrors ↦
            let same : some start ≡ some l =
              rw (e, mirrors, apply_payroll_cash_advance_repayments) at h in
            let to : start ≡ l = cc same in subst (λ x. calculate_balance x u ≡ some b) to before_b
        | inr deducts ↦
            let c : Call = record {
              run = run;
              actor = actor;
              reference = reference;
              today = today;
              now = now;
            } in
            let done : apply_items c (select (is_deducted_item run_id) items) (some start)
                ≡ some l =
              rw (e, deducts, apply_payroll_cash_advance_repayments) at h in
            let id : run_id ≡ run.id = sym (find_ledger_run-id run_id before.runs run e) in
            let clear = subst (λ x. IsUnpaid before.runs x) id unpaid in
            let first =
              subst (λ x. IsUnseen x start start) id (start-IsUnseen run_id before unreversed) in
            let unseen : IsUnseen run.id start l = subst (IsUnseenLedger c start clear) done (
              items-IsUnseen c start clear (select (is_deducted_item run_id) items) (some start)
                first) in
            unseen.kept u b before_b
      ]
    ]
