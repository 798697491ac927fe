-- ===== src/Payroll/Manual/Accepted.antt =====
-- Which requests are recorded.
use hidden_oasis_staff_payro.Common.{
  ℕ, ◌<◌, ◌≤◌, ◌≡◌, refl, sym, true, false, Option, none, some, if◌then◌else◌, ltb, pos, pos_part,
  ltb_ℤ, Text, arith, subst,
}
use hidden_oasis_staff_payro.Outbox.Row.{Outbox, ensure_integration_schema}
use hidden_oasis_staff_payro.Outbox.Enqueue.{Event, queued, upsert, enqueue_event}
use hidden_oasis_staff_payro.Outbox.Enqueue.Once.{upsert_found, enqueue_event_lem}
use hidden_oasis_staff_payro.Payroll.Ledger.{
  Ledger, LedgerAdvance, Balance, balance_from, confirmed_new_repayments, find_ledger_advance,
  ensure_balances, recalculated_advance,
}
use hidden_oasis_staff_payro.Payroll.Ledger.Recalculated.{find-recalculated}
use hidden_oasis_staff_payro.Payroll.Receipt.{insert_repayment, repayment_event}
use hidden_oasis_staff_payro.Payroll.Manual.{
  ManualRepaymentPayload, Cashbook, Recorded, recorded, new_repayment, queue_repayment,
  insert_and_queue, within_balance, is_cancelled, release_refusal, record_for, record_new,
  record_or_replay, record_manual_repayment, find_by_key,
}
use hidden_oasis_staff_payro.Payroll.Manual.Posting.{recalculated, relisted}

-- The result is a recorded repayment with the id.
abbrev pub IsRecorded : ℕ → Recorded → Type 0
IsRecorded id r = (b : Balance) × (s : Cashbook) × (r ≡ recorded id b s)

-- No repayment has the key of the request.
abbrev pub IsFresh : Cashbook → Option Text → Type 0
IsFresh s none = Unit
IsFresh s (some key) = find_by_key key s.ledger.repayments ≡ none

event-queued :
    (e : Event) (now : ℕ) (o : Outbox)
    → (q : ℕ) × (enqueue_event true true e now o ≡ queued q (upsert e now o))
event-queued e now o =
    let (r, found) = upsert_found e now o in (r.id, enqueue_event_lem true true e now o refl found)

module _ (i amount now : ℕ) (payload : ManualRepaymentPayload) (who : Text) (o : Outbox) where
  insert-IsRecorded :
      (l : Ledger) (a : LedgerAdvance)
      → find_ledger_advance i l.advances ≡ some a
      → IsRecorded l.next_repayment_id (
          insert_and_queue i payload amount a who now o
            (relisted i now (balance_from a (confirmed_new_repayments l i)) l))
  unfolding insert_and_queue insert_repayment queue_repayment new_repayment
  insert-IsRecorded l a found =
      let before = balance_from a (confirmed_new_repayments l i) in
      let l1 = relisted i now before l in
      let a1 = recalculated_advance before now a in
      let r = new_repayment i payload amount a who now l.next_repayment_id in
      let l2 = insert_repayment r l1 in
      let b = balance_from a1 (confirmed_new_repayments l2 i) in
      let found1 = find-recalculated i now before l.advances a found in
      let (q, sent) = event-queued (repayment_event r a) now o in
      (
        b,
        record { ledger = relisted i now b l2; outbox = upsert (repayment_event r a) now o },
        rw (recalculated l2 i now a1 found1, insert_and_queue) (rw (sent, queue_repayment) refl),
      )

  within-IsRecorded :
      (l : Ledger) (a : LedgerAdvance)
      → let before = balance_from a (confirmed_new_repayments l i) in
        find_ledger_advance i l.advances ≡ some a
        → is_cancelled before.status ≡ false
        → amount ≤ before.balance
        → IsRecorded l.next_repayment_id
            (within_balance i payload amount a who now o (relisted i now before l, before))
  unfolding within_balance
  within-IsRecorded l a found alive enough =
      let before = balance_from a (confirmed_new_repayments l i) in
      let within : ltb before.balance amount ≡ false = ground arith in
      rw (alive, if◌then◌else◌) (rw (within, if◌then◌else◌) (insert-IsRecorded l a found))

  record_new-IsRecorded :
      (from_iso : Text → Option ℕ) (s : Cashbook) (a : LedgerAdvance)
      → let before = balance_from a (confirmed_new_repayments s.ledger i) in
        s.outbox ≡ o
        → find_ledger_advance i s.ledger.advances ≡ some a
        → release_refusal from_iso a payload.repayment_date ≡ none
        → is_cancelled before.status ≡ false
        → amount ≤ before.balance
        → IsRecorded s.ledger.next_repayment_id (record_new from_iso i payload amount who now s)
  unfolding record_new record_for
  record_new-IsRecorded from_iso s a same found issued alive enough =
      rw (found, record_new)
        (rw (issued, record_for)
          (rw (recalculated s.ledger i now a found, record_for)
            (rw same (within-IsRecorded s.ledger a found alive enough))))

  record_or_replay-IsRecorded :
      (from_iso : Text → Option ℕ) (s : Cashbook)
      → IsFresh s payload.idempotency_key
      → IsRecorded s.ledger.next_repayment_id (record_new from_iso i payload amount who now s)
      → IsRecorded s.ledger.next_repayment_id (record_or_replay from_iso i payload amount who now s)
  unfolding record_or_replay
  record_or_replay-IsRecorded from_iso s fresh done = by_key payload.idempotency_key refl
    where
      by_key :
          (k : Option Text)
          → payload.idempotency_key ≡ k
          → IsRecorded s.ledger.next_repayment_id
              (record_or_replay from_iso i payload amount who now s)
      by_key none e = simp (e, record_or_replay) done
      by_key (some key) e =
          let unused : IsFresh s (some key) = subst (IsFresh s) e fresh in
          simp (e, record_or_replay) (rw (unused, record_or_replay) done)

-- A request is recorded, under the next id, where its amount is positive and at most the balance of
-- its advance, no repayment has its key, the advance is there and not cancelled, and its release and
-- the date of the repayment give no refusal.
pub record_manual_repayment-accepts :
    (from_iso : Text → Option ℕ) (i amount : ℕ) (payload : ManualRepaymentPayload) (who : Text)
    (now : ℕ) (s : Cashbook) (a : LedgerAdvance)
    → payload.amount ≡ pos amount
    → 0 < amount
    → IsFresh s payload.idempotency_key
    → find_ledger_advance i (ensure_balances s.ledger).advances ≡ some a
    → release_refusal from_iso a payload.repayment_date ≡ none
    → is_cancelled (balance_from a (confirmed_new_repayments s.ledger i)).status ≡ false
    → amount ≤ (balance_from a (confirmed_new_repayments s.ledger i)).balance
    → IsRecorded s.ledger.next_repayment_id (record_manual_repayment from_iso i payload who now s)
unfolding record_manual_repayment ensure_balances confirmed_new_repayments
record_manual_repayment-accepts from_iso i amount payload who now s a whole positive fresh found
      issued alive enough =
    let o = ensure_integration_schema s.outbox in
    let book : Cashbook = record { ledger = ensure_balances s.ledger; outbox = o } in
    let accepted : ltb_ℤ (pos 0) payload.amount ≡ true = rw whole (ground arith) in
    let part : pos_part payload.amount ≡ amount = rw whole refl in
    let done = record_or_replay-IsRecorded i amount now payload who o from_iso book fresh (
      record_new-IsRecorded i amount now payload who o from_iso book a refl found issued alive
        enough) in
    let (b, s', result) =
      subst
        (λ x.
          IsRecorded s.ledger.next_repayment_id
            (record_or_replay from_iso i payload x who now book))
        (sym part) done in
    (b, s', simp (accepted, record_manual_repayment) result)
