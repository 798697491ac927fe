-- ===== src/Payroll/Credit/Corrected.antt =====
-- What a correction of the amount leaves.
use hidden_oasis_staff_payro.Common.{
  ℕ, ◌+◌, ◌-◌, ◌≤◌, ◌≡◌, refl, subst, inl, inr, Option, some, List, [], ◌∷◌, map, ◌==◌,
  if◌then◌else◌, is_empty, strip, ltb_ℤ, pos, pos_part, Text, arith, Bool-cases, Option-cases,
}
use hidden_oasis_staff_payro.Payroll.Ledger.{
  Ledger, LedgerAdvance, balance_from, opening_of, confirmed_new_repayments, find_ledger_advance,
  ensure_balances, ledger_where_id, recalculated_advance,
}
use hidden_oasis_staff_payro.Payroll.Ledger.Recalculated.{find-recalculated}
use hidden_oasis_staff_payro.Payroll.Ledger.Opened.{ensured-opening}
use hidden_oasis_staff_payro.Payroll.Manual.Posting.{recalculated, relisted}
use hidden_oasis_staff_payro.Payroll.Credit.{
  CreditBook, Correction, CorrectionResult, correction_refused, corrected, AmountCorrectionPayload,
  basis_of, corrected_advance, update_advance, correction_entry, correct_recalculated,
  correct_cash_advance_amount,
}

pub find-updated :
    (i : ℕ) (f : LedgerAdvance → LedgerAdvance) (l : List LedgerAdvance) (a : LedgerAdvance)
    → ((a : LedgerAdvance) → (f a).id ≡ a.id)
    → find_ledger_advance i l ≡ some a
    → find_ledger_advance i (map (ledger_where_id i f) l) ≡ some (f a)
unfolding find_ledger_advance
find-updated i f [] a keeps h = cc
find-updated i f (c ∷ l) a keeps h = ground (arith, keeps c, find-updated i f l a keeps)

-- What the entry of a correction says.
abbrev pub IsCorrection : Ledger → ℕ → ℕ → CorrectionResult → Type 0
IsCorrection l i amount (correction_refused _) = Unit
IsCorrection l i amount (corrected entry s) =
    (a : LedgerAdvance) × (n : ℕ) × (b : LedgerAdvance) × (find_ledger_advance i l.advances
      ≡ some a)
    × (a.ledger_opening_balance ≡ some n)
    × (find_ledger_advance i s.ledger.advances ≡ some b)
    × (b.amount ≡ amount)
    × (b.remaining_balance ≡ some entry.new_remaining_balance)
    × (entry.new_remaining_balance ≡ amount - confirmed_new_repayments l i)
    × (entry.repayments_applied ≡ (a.amount - n) + confirmed_new_repayments l i)
    × (b.overpayment_credit ≡ entry.repayments_applied - amount)

correct-IsCorrection :
    (i amount : ℕ) (payload : AmountCorrectionPayload) (who : Option Text) (now : ℕ)
    (s : CreditBook) (l : Ledger) (a : LedgerAdvance) (n : ℕ)
    → find_ledger_advance i l.advances ≡ some a
    → a.ledger_opening_balance ≡ some n
    → let old = balance_from a (confirmed_new_repayments l i) in
      IsCorrection l i amount
        (correct_recalculated i amount payload who now s a (relisted i now old l, old))
unfolding correct_recalculated recalculated_advance corrected_advance correction_entry balance_from
    opening_of confirmed_new_repayments
correct-IsCorrection i amount payload who now s l a n found opening =
    let k = confirmed_new_repayments l i in
    let old = balance_from a k in
    let l1 = relisted i now old l in
    let a1 = recalculated_advance old now a in
    let a2 = corrected_advance amount (old.paid - amount) who now a1 in
    let l2 = update_advance i (corrected_advance amount (old.paid - amount) who now) l1 in
    let found1 = find-recalculated i now old l.advances a found in
    let found2 : find_ledger_advance i l2.advances ≡ some a2 =
      find-updated i (corrected_advance amount (old.paid - amount) who now) l1.advances a1
        (λ c. unfold corrected_advance in refl) found1 in
    let new = balance_from a2 (confirmed_new_repayments l2 i) in
    let found3 = find-recalculated i now new l2.advances a2 found2 in
    elim (Bool-cases (amount == basis_of a)) [
      | inl same ↦ rw (same, if◌then◌else◌) tt
      | inr other ↦
          rw (other, if◌then◌else◌)
            (rw (recalculated l2 i now a2 found2, correct_recalculated)
              (
                a,
                n,
                recalculated_advance new now a2,
                found,
                opening,
                found3,
                refl,
                refl,
                refl,
                rw (opening, opening_of) refl,
                refl,
              ))
    ]

correct_cash_advance_amount-IsCorrection :
    (i : ℕ) (payload : AmountCorrectionPayload) (who : Option Text) (now : ℕ) (s : CreditBook)
    → IsCorrection
        (ensure_balances s.ledger)
        i
        (pos_part payload.corrected_amount)
        (correct_cash_advance_amount i payload who now s)
unfolding correct_cash_advance_amount
correct_cash_advance_amount-IsCorrection i payload who now s =
    let l = ensure_balances s.ledger in
    elim (Bool-cases (ltb_ℤ (pos 0) payload.corrected_amount)) [
      | inr low ↦ simp (low, correct_cash_advance_amount) tt
      | inl high ↦ elim (Bool-cases (is_empty (strip payload.correction_reason))) [
        | inl empty ↦ simp (high, empty, correct_cash_advance_amount) tt
        | inr reason ↦ elim (Option-cases (find_ledger_advance i l.advances)) [
          | inl e ↦ simp (high, reason, e, correct_cash_advance_amount) tt
          | inr (a, e) ↦
              let (n, opening) = ensured-opening i s.ledger a e in
              simp (high, reason, e, recalculated l i now a e, correct_cash_advance_amount)
                (correct-IsCorrection i (pos_part payload.corrected_amount) payload who now s l a n
                  e opening)
        ]
      ]
    ]

-- A correction that succeeds sets the amount and the opening balance to the corrected one: what is
-- left is the corrected amount less the repayments confirmed in the ledger, and is stored. The entry
-- says that what was paid before the ledger, the old amount less the opening balance, is applied too:
-- what is applied and what is left are more than the corrected amount by just that. This is where the
-- corrected amount covers the confirmed repayments. The credit is what is applied beyond the corrected
-- amount.
pub correct-left :
    (i : ℕ) (payload : AmountCorrectionPayload) (who : Option Text) (now : ℕ) (s s' : CreditBook)
    (entry : Correction)
    → correct_cash_advance_amount i payload who now s ≡ corrected entry s'
    → confirmed_new_repayments (ensure_balances s.ledger) i ≤ pos_part payload.corrected_amount
    → let l = ensure_balances s.ledger in
      let amount = pos_part payload.corrected_amount in
      let k = confirmed_new_repayments l i in
      (a : LedgerAdvance) × (n : ℕ) × (b : LedgerAdvance) × (find_ledger_advance i l.advances
        ≡ some a)
      × (a.ledger_opening_balance ≡ some n)
      × (find_ledger_advance i s'.ledger.advances ≡ some b)
      × (b.amount ≡ amount)
      × (b.remaining_balance ≡ some (amount - k))
      × (entry.repayments_applied + (amount - k) ≡ amount + (a.amount - n))
      × (b.overpayment_credit ≡ entry.repayments_applied - amount)
correct-left i payload who now s s' entry h covers =
    let l = ensure_balances s.ledger in
    let amount = pos_part payload.corrected_amount in
    let (a, n, b, found, opening, found', whole, left, by, applied, credit) =
      subst (IsCorrection l i amount) h
        (correct_cash_advance_amount-IsCorrection i payload who now s) in
    (a, n, b, found, opening, found', whole, cc (left, by), omega arith, credit)
