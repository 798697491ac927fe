-- ===== src/Payroll/Settle/Offset.antt =====
-- An offset against another advance, and the settlement as a whole.
use hidden_oasis_staff_payro.Common.{
  ℕ, ◌≤◌, ◌≡◌, ◌≢◌, refl, sym, subst, ap, ◌∙◌, inl, inr, false, Option, some, [], ◌∷◌, ◌==◌, ==_iff,
  if◌then◌else◌, ltb, eq_text, Text, arith, Bool-cases, sum_by-append,
}
use hidden_oasis_staff_payro.Payroll.Ledger.{
  Ledger, LedgerAdvance, LedgerRepayment, balance_from, calculate_balance, confirmed_new_repayments,
  is_confirmed, run_is_paid, find_ledger_advance, recalculated_advance,
}
use hidden_oasis_staff_payro.Payroll.Ledger.Recalculated.{
  calculated, find-recalculated, balance_from-again,
}
use hidden_oasis_staff_payro.Payroll.Manual.Posting.{recalculated, relisted}
use hidden_oasis_staff_payro.Payroll.Receipt.{insert_repayment}
use hidden_oasis_staff_payro.Payroll.Credit.{CreditBook, Settlement, CreditSettlementPayload}
use hidden_oasis_staff_payro.Payroll.Settle.{offset_repayment, finish_settlement, offset_target}
use hidden_oasis_staff_payro.Payroll.Settle.Conserved.{
  relisted-other, calculated-found, IsSettled-before, IsSettled, finish-IsSettled,
}

offset-unconfirmed :
    (i t amount : ℕ) (a : LedgerAdvance) (note : Text) (payload : CreditSettlementPayload)
    (who : Option Text) (today : Text) (now : ℕ) (l : Ledger) (u : ℕ)
    → confirmed_new_repayments
        (insert_repayment
          (offset_repayment i t amount a note payload who today now l.next_repayment_id)
          l)
        u
      ≡ confirmed_new_repayments l u
unfolding confirmed_new_repayments insert_repayment is_confirmed run_is_paid offset_repayment
    eq_text
offset-unconfirmed i t amount a note payload who today now l u =
    let r = offset_repayment i t amount a note payload who today now l.next_repayment_id in
    let counted = λ (x : LedgerRepayment). if is_confirmed l.runs u x then x.amount else 0 in
    let none_here : is_confirmed l.runs u r ≡ false = ground arith in
    let here : counted r ≡ 0 = rw (none_here, if◌then◌else◌) refl in
    omega (arith, sum_by-append counted l.repayments (r ∷ []), here)

pub recalculated-kept :
    (t now : ℕ) (l l2 : Ledger) (o : LedgerAdvance) (n : ℕ)
    → o.ledger_opening_balance ≡ some n
    → find_ledger_advance t l.advances ≡ some o
    → l2.advances ≡ (relisted t now (balance_from o (confirmed_new_repayments l t)) l).advances
    → ((u : ℕ) → confirmed_new_repayments l2 u ≡ confirmed_new_repayments l u)
    → (o1 : LedgerAdvance) × (find_ledger_advance t l2.advances ≡ some o1)
      × ((u : ℕ) (c : LedgerAdvance)
          → find_ledger_advance u l.advances ≡ some c
          → calculate_balance
              (relisted t now (balance_from o1 (confirmed_new_repayments l2 t)) l2)
              u
            ≡ calculate_balance l u)
unfolding confirmed_new_repayments
recalculated-kept t now l l2 o n opening found same_rows same_sums =
    let k = confirmed_new_repayments l t in
    let current = balance_from o k in
    let o1 = recalculated_advance current now o in
    let found1 : find_ledger_advance t l2.advances ≡ some o1 =
      rw same_rows (find-recalculated t now current l.advances o found) in
    let b = balance_from o1 (confirmed_new_repayments l2 t) in
    let l3 = relisted t now b l2 in
    let found2 = find-recalculated t now b l2.advances o1 found1 in
    let opening1 : o1.ledger_opening_balance ≡ some n = unfold recalculated_advance in opening in
    let kept : calculate_balance l3 t ≡ calculate_balance l t =
      calculated l3 t (recalculated_advance b now o1) found2
      ∙ ap some (balance_from-again o1 (confirmed_new_repayments l2 t) now n opening1)
      ∙ ap (λ x. some (balance_from o1 x)) (same_sums t)
      ∙ ap some (balance_from-again o k now n opening)
      ∙ sym (calculated l t o found) in
    (
      o1,
      found1,
      λ u c h. elim (Bool-cases (t == u)) [
        | inl same ↦
            subst (λ x. calculate_balance l3 x ≡ calculate_balance l x) ((==_iff t u).0 same) kept
        | inr other ↦
            let h2 : find_ledger_advance u l2.advances ≡ some c =
              rw same_rows (relisted-other t u now current l c (ground arith) h) in
            calculated l3 u c (relisted-other t u now b l2 c (ground arith) h2)
            ∙ ap (λ x. some (balance_from c x)) (same_sums u)
            ∙ sym (calculated l u c h)
      ],
    )

pub offset-IsSettled :
    (i t amount : ℕ) (a : LedgerAdvance) (note : Text) (payload : CreditSettlementPayload)
    (who : Option Text) (today : Text) (now : ℕ) (s : CreditBook) (entry : Settlement) (l : Ledger)
    (c o : LedgerAdvance) (n : ℕ)
    → amount ≤ a.overpayment_credit
    → t ≢ i
    → find_ledger_advance i l.advances ≡ some c
    → find_ledger_advance t l.advances ≡ some o
    → o.ledger_opening_balance ≡ some n
    → let current = balance_from o (confirmed_new_repayments l t) in
      IsSettled i amount s l a entry (
        offset_target i t amount a note payload who today now s entry
          (relisted t now current l, current))
unfolding offset_target insert_repayment confirmed_new_repayments
offset-IsSettled i t amount a note payload who today now s entry l c o n enough other found found'
      opening =
    let current = balance_from o (confirmed_new_repayments l t) in
    let l1 = relisted t now current l in
    let r = offset_repayment i t amount a note payload who today now l1.next_repayment_id in
    let l2 = insert_repayment r l1 in
    let (o1, found1, keeps) =
      recalculated-kept t now l l2 o n opening found' refl
        (offset-unconfirmed i t amount a note payload who today now l1) in
    let l3 = relisted t now (balance_from o1 (confirmed_new_repayments l2 t)) l2 in
    let found3 : find_ledger_advance i l3.advances ≡ some c =
      relisted-other t i now (balance_from o1 (confirmed_new_repayments l2 t)) l2 c other
        (relisted-other t i now current l c other found) in
    elim (Bool-cases (ltb current.balance amount)) [
      | inl over ↦ rw (over, if◌then◌else◌) tt
      | inr under ↦
          rw (under, if◌then◌else◌)
            (rw (recalculated l2 t now o1 found1, offset_target)
              (IsSettled-before i amount s l l3 a entry
                (finish_settlement i amount a who now s entry l3)
                (λ u d before. let (e, h) = calculated-found l u d before in keeps u e h ∙ before)
                (finish-IsSettled i amount a who now s entry l3 c enough found3)))
    ]
