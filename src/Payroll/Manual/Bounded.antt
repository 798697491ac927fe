-- ===== src/Payroll/Manual/Bounded.antt =====
-- A recorded repayment is within the balance of its advance, and reduces the balance by its amount.
use hidden_oasis_staff_payro.Common.{
  ℕ, ◌+◌, ◌<◌, ◌≡◌, refl, subst, inl, inr, Option, some, ltb, if◌then◌else◌, pos, ltb_ℤ, pos_part,
  Text, arith, Option-cases, Bool-cases,
}
use hidden_oasis_staff_payro.Outbox.Row.{Outbox, ensure_integration_schema}
use hidden_oasis_staff_payro.Payroll.Ledger.{
  Ledger, LedgerAdvance, LedgerRepayment, Balance, balance_from, find_ledger_advance,
  confirmed_new_repayments, calculate_balance, ensure_balances,
}
use hidden_oasis_staff_payro.Payroll.Ledger.Opened.{ensured-opening}
use hidden_oasis_staff_payro.Payroll.Manual.{
  ManualRepaymentPayload, Cashbook, recorded, within_balance, record_for, record_new,
  record_or_replay, is_cancelled, replayed, record_manual_repayment, release_refusal, find_by_key,
  same_request,
}
use hidden_oasis_staff_payro.Payroll.Manual.Posting.{
  Posting, IsPosted, insert-IsPosted, recalculated, relisted,
}

module _ (i amount now : ℕ) (payload : ManualRepaymentPayload) (who : Text) (o : Outbox) where
  within-IsPosted :
      (l : Ledger) (a : LedgerAdvance) (n : ℕ)
      → find_ledger_advance i l.advances ≡ some a
      → a.ledger_opening_balance ≡ some n
      → let before = balance_from a (confirmed_new_repayments l i) in
        IsPosted i amount now payload who o l
          (within_balance i payload amount a who now o (relisted i now before l, before))
  unfolding within_balance
  within-IsPosted l a n found opening =
      let before = balance_from a (confirmed_new_repayments l i) in
      elim (Bool-cases (is_cancelled before.status)) [
        | inl dead ↦ rw (dead, if◌then◌else◌) tt
        | inr alive ↦
            rw (alive, if◌then◌else◌)
              (elim (Bool-cases (ltb before.balance amount)) [
                | inl over ↦ rw (over, if◌then◌else◌) tt
                | inr under ↦
                    rw (under, if◌then◌else◌)
                      (insert-IsPosted i amount now payload who o l a n found opening
                        (ground arith))
              ])
      ]

  module _ (from_iso : Text → Option ℕ) where
    record_for-IsPosted :
        (s : Cashbook) (a : LedgerAdvance) (n : ℕ)
        → s.outbox ≡ o
        → find_ledger_advance i s.ledger.advances ≡ some a
        → a.ledger_opening_balance ≡ some n
        → IsPosted i amount now payload who o s.ledger
            (record_for from_iso i payload amount who now s a)
    unfolding record_for
    record_for-IsPosted s a n same found opening =
        elim (Option-cases (release_refusal from_iso a payload.repayment_date)) [
          | inl e ↦
              rw (e, record_for)
                (rw (recalculated s.ledger i now a found, record_for)
                  (rw same (within-IsPosted s.ledger a n found opening)))
          | inr (refusal, e) ↦ rw (e, record_for) tt
        ]

    record_new-IsPosted :
        (s : Cashbook)
        → s.outbox ≡ o
        → ((a : LedgerAdvance)
            → find_ledger_advance i s.ledger.advances ≡ some a
            → (n : ℕ) × (a.ledger_opening_balance ≡ some n))
        → IsPosted i amount now payload who o s.ledger
            (record_new from_iso i payload amount who now s)
    unfolding record_new
    record_new-IsPosted s same opened =
        elim (Option-cases (find_ledger_advance i s.ledger.advances)) [
          | inl e ↦ rw (e, record_new) tt
          | inr (a, e) ↦
              rw (e, record_new) (record_for-IsPosted s a (opened a e).0 same e (opened a e).1)
        ]

    replayed-IsPosted :
        (l : Ledger) (r : LedgerRepayment) (s : Cashbook)
        → IsPosted i amount now payload who o l (replayed i payload amount r s)
    unfolding replayed
    replayed-IsPosted l r s = elim (Bool-cases (same_request i payload amount r)) [
      | inl same ↦
          rw (same, if◌then◌else◌)
            (elim (Option-cases (calculate_balance s.ledger i)) [
              | inl e ↦ rw (e, replayed) tt
              | inr (b, e) ↦ rw (e, replayed) tt
            ])
      | inr other ↦ rw (other, if◌then◌else◌) tt
    ]

    record_or_replay-IsPosted :
        (s : Cashbook)
        → IsPosted i amount now payload who o s.ledger
            (record_new from_iso i payload amount who now s)
        → IsPosted i amount now payload who o s.ledger
            (record_or_replay from_iso i payload amount who now s)
    unfolding record_or_replay
    record_or_replay-IsPosted s fine = elim (Option-cases payload.idempotency_key) [
      | inl e ↦ simp (e, record_or_replay) fine
      | inr (key, e) ↦ elim (Option-cases (find_by_key key s.ledger.repayments)) [
        | inl none_yet ↦ simp (e, record_or_replay) (rw (none_yet, record_or_replay) fine)
        | inr (r, known) ↦
            simp (e, record_or_replay)
              (rw (known, record_or_replay) (replayed-IsPosted s.ledger r s))
      ]
    ]

-- A recorded request has a positive amount and is posted to the tables that the schema functions
-- leave.
pub record_manual_repayment-Posting :
    (from_iso : Text → Option ℕ) (i : ℕ) (payload : ManualRepaymentPayload) (who : Text) (now : ℕ)
    (s s' : Cashbook) (id : ℕ) (b : Balance)
    → record_manual_repayment from_iso i payload who now s ≡ recorded id b s'
    → (amount : ℕ) × (payload.amount ≡ pos amount)
      × (0 < amount)
      × Posting i amount now payload who
          (ensure_integration_schema s.outbox)
          (ensure_balances s.ledger)
          id
          b
          s'
unfolding record_manual_repayment
record_manual_repayment-Posting from_iso i payload who now s s' id b h =
    let amount = pos_part payload.amount in
    let l = ensure_balances s.ledger in
    let o = ensure_integration_schema s.outbox in
    let book : Cashbook = record { ledger = l; outbox = o } in
    let fine = record_or_replay-IsPosted i amount now payload who o from_iso book (
      record_new-IsPosted i amount now payload who o from_iso book refl
        (λ a found. ensured-opening i s.ledger a found)) in
    elim (Bool-cases (ltb_ℤ (pos 0) payload.amount)) [
      | inl positive ↦
          let done : record_or_replay from_iso i payload amount who now book ≡ recorded id b s' =
            ground (arith, h) in
          (
            amount,
            ground arith,
            ground arith,
            subst (IsPosted i amount now payload who o l) done fine,
          )
      | inr low ↦ absurd (cc (rw (low, record_manual_repayment) at h))
    ]

-- A manual repayment that is recorded has a positive amount, which is at most the balance of the
-- advance before it: the balance after it is the one before less the amount, what is paid has grown
-- by the amount, and the ledger that is left gives the balance that is reported.
pub record_manual_repayment-bounded :
    (from_iso : Text → Option ℕ) (i : ℕ) (payload : ManualRepaymentPayload) (who : Text) (now : ℕ)
    (s s' : Cashbook) (id : ℕ) (b : Balance)
    → record_manual_repayment from_iso i payload who now s ≡ recorded id b s'
    → (amount : ℕ) × (before : Balance) × (payload.amount ≡ pos amount)
      × (0 < amount)
      × (calculate_balance (ensure_balances s.ledger) i ≡ some before)
      × (b.balance + amount ≡ before.balance)
      × (b.paid ≡ before.paid + amount)
      × (calculate_balance s'.ledger i ≡ some b)
record_manual_repayment-bounded from_iso i payload who now s s' id b h =
    let (amount, whole, positive, posting) =
      record_manual_repayment-Posting from_iso i payload who now s s' id b h in
    (
      amount, posting.before, whole, positive, posting.calculated_before, posting.balance_reduced,
      posting.paid_raised, posting.calculated_after,
    )
