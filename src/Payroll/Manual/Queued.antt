-- ===== src/Payroll/Manual/Queued.antt =====
-- The event of a recorded repayment, as Accounting is asked to review it.
use hidden_oasis_staff_payro.Common.{
  ℕ, ◌≡◌, refl, sym, subst, ◌∙◌, Option, none, some, ◌<◌, true, pos, Text, codes, number_text, ◌++◌,
  arith,
}
use hidden_oasis_staff_payro.Outbox.Envelope.{
  Envelope, advance_repaid, first_positive, amount_or_zero,
}
use hidden_oasis_staff_payro.Outbox.Canonical.{
  by_event, repayment_outbound, canonical_accounting_payload,
}
use hidden_oasis_staff_payro.Outbox.Row.{
  Outbox, Row, Key, pending, find_key, ensure_integration_schema,
}
use hidden_oasis_staff_payro.Outbox.Enqueue.{
  Event, queued, event_key, new_row, upsert, enqueue_event,
}
use hidden_oasis_staff_payro.Outbox.Enqueue.Once.{upsert_unknown, enqueue_event_lem}
use hidden_oasis_staff_payro.Payroll.Ledger.{LedgerAdvance, LedgerRepayment, Balance}
use hidden_oasis_staff_payro.Payroll.Receipt.{repayment_payload, repayment_event}
use hidden_oasis_staff_payro.Payroll.Manual.{
  ManualRepaymentPayload, Cashbook, recorded, new_repayment, record_manual_repayment,
}
use hidden_oasis_staff_payro.Payroll.Manual.Bounded.{record_manual_repayment-Posting}

-- The key of the event of the repayment `id`.
abbrev pub repayment_key : ℕ → Key
repayment_key id = record {
  destination = codes "accounting";
  external_source = codes "hidden_oasis_staff_payroll";
  external_id = codes "cash-advance-repayment:" ++ number_text id;
}

queued-new :
    (e : Event) (now q : ℕ) (o o' : Outbox)
    → find_key (event_key e) o.rows ≡ none
    → enqueue_event true true e now o ≡ queued q o'
    → find_key (event_key e) o'.rows ≡ some (new_row e now o.next_id)
queued-new e now q o o' fresh h =
    let found = upsert_unknown e now o fresh in
    let sent = enqueue_event_lem true true e now o refl found in
    let same : upsert e now o ≡ o' = cc (sent, h) in
    subst (λ (x : Outbox). find_key (event_key e) x.rows ≡ some (new_row e now o.next_id)) same
      found

repaid-request :
    (r : LedgerRepayment) (a : LedgerAdvance) (n : ℕ)
    → r.amount ≡ n
    → 0 < n
    → (canonical_accounting_payload advance_repaid (repayment_payload r a)).amount ≡ pos n
unfolding canonical_accounting_payload by_event repayment_outbound first_positive amount_or_zero
    repayment_payload
repaid-request r a n h positive = ground arith

-- Where no event has the key of the repayment, a recorded repayment leaves in the outbox a pending
-- row under its key, whose envelope asks Accounting to review the amount of the request.
pub record_manual_repayment-queued :
    (from_iso : Text → Option ℕ) (i : ℕ) (payload : ManualRepaymentPayload) (who : Text) (now : ℕ)
    (s s' : Cashbook) (id : ℕ) (b : Balance)
    → record_manual_repayment from_iso i payload who now s ≡ recorded id b s'
    → find_key (repayment_key id) (ensure_integration_schema s.outbox).rows ≡ none
    → (row : Row) × (envelope : Envelope) × (find_key (repayment_key id) s'.outbox.rows ≡ some row)
      × (row.status ≡ pending)
      × (row.payload ≡ some envelope)
      × ((canonical_accounting_payload advance_repaid envelope).amount ≡ payload.amount)
unfolding new_repayment repayment_event new_row
record_manual_repayment-queued from_iso i payload who now s s' id b h fresh =
    let (amount, whole, positive, posting) =
      record_manual_repayment-Posting from_iso i payload who now s s' id b h in
    let r = new_repayment i payload amount posting.advance who now id in
    let e = repayment_event r posting.advance in
    let o = ensure_integration_schema s.outbox in
    let sent : enqueue_event true true e now o ≡ queued posting.queue_id s'.outbox =
      subst
        (λ x.
          enqueue_event true true (repayment_event x posting.advance) now o
          ≡ queued posting.queue_id s'.outbox)
        posting.row_of posting.is_queued in
    (
      new_row e now o.next_id,
      repayment_payload r posting.advance,
      queued-new e now posting.queue_id o s'.outbox fresh sent,
      refl,
      refl,
      repaid-request r posting.advance amount refl positive ∙ sym whole,
    )
