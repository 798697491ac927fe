-- ===== src/Payroll/Manual/Tests.antt =====
-- A repayment of 50.00 by GCash of the advance of the ledger's tests (api/cash_repayments.py).
use hidden_oasis_staff_payro.Common.{
  ℕ, ◌+◌, ◌<◌, ◌≡◌, refl, Option, none, some, [], pos, Text, codes, number_text, eq_text, lower,
  lower_code, replace_code, split_words, strip, lstrip, rstrip, is_space, is_empty, join_words,
  arith, ◌≤◌, false,
}
use hidden_oasis_staff_payro.Outbox.Envelope.{Envelope, advance_repaid}
use hidden_oasis_staff_payro.Outbox.Canonical.{canonical_accounting_payload}
use hidden_oasis_staff_payro.Outbox.Row.{
  Row, pending, find_key, ensure_integration_schema, same_key,
}
use hidden_oasis_staff_payro.Outbox.Enqueue.{new_row, upsert, id_after, enqueue_event}
use hidden_oasis_staff_payro.Payroll.Ledger.{
  Balance, partially_repaid, find_ledger_advance, confirmed_new_repayments, is_confirmed,
  run_is_paid, calculate_balance, recalculate_balance, ensure_balances, opened_advance,
  balanced_advance, balance_from, opening_of, next_ledger_status, recalculated_advance,
  LedgerAdvance,
}
use hidden_oasis_staff_payro.Payroll.Ledger.Tests.{ledger, advance_five}
use hidden_oasis_staff_payro.Payroll.Receipt.{insert_repayment, repayment_event}
use hidden_oasis_staff_payro.Payroll.Manual.{
  ManualRepaymentPayload, Cashbook, Recorded, recorded, already_recorded, repayment_refused,
  exceeds_balance, new_repayment, insert_and_queue, queue_repayment, within_balance, record_for,
  record_new, record_or_replay, record_manual_repayment, release_refusal, find_by_key,
  require_explicit_method, is_cancelled,
}
use hidden_oasis_staff_payro.Payroll.Manual.Bounded.{record_manual_repayment-bounded}
use hidden_oasis_staff_payro.Payroll.Manual.Replayed.{record_manual_repayment-again}
use hidden_oasis_staff_payro.Payroll.Manual.Accepted.{IsRecorded, record_manual_repayment-accepts}
use hidden_oasis_staff_payro.Payroll.Manual.Queued.{record_manual_repayment-queued, repayment_key}

-- A reading of dates that knows no date.
abbrev no_dates : Text → Option ℕ
no_dates t = none

abbrev payload : ManualRepaymentPayload
payload = record {
  amount = pos 5000;
  repayment_date = codes "2026-05-02";
  payment_method = codes "GCash";
  idempotency_key = some (codes "k1");
  reference = none;
  notes = none;
}

abbrev cashbook : Cashbook
cashbook = record { ledger = ledger; outbox = record { rows = []; next_id = 1 } }

abbrev book_after : Recorded → Cashbook
book_after (recorded _ _ s) = s
book_after (repayment_refused _) = cashbook
book_after (already_recorded _ _) = cashbook

abbrev after : Balance
after = record { amount = 40000; paid = 27000; balance = 13000; status = partially_repaid }

method_kept : require_explicit_method (codes " GCash") ≡ some (codes "GCash")
unfolding require_explicit_method strip lstrip rstrip lower lower_code is_space replace_code
    split_words join_words is_empty eq_text
method_kept = refl

deduction_refused : require_explicit_method (codes "Payroll-Deduction") ≡ none
unfolding require_explicit_method strip lstrip rstrip lower lower_code is_space replace_code
    split_words join_words is_empty eq_text
deduction_refused = refl

run :
    record_manual_repayment no_dates 5 payload (codes "Ana") 9 cashbook
    ≡ recorded 3 after
        (book_after (record_manual_repayment no_dates 5 payload (codes "Ana") 9 cashbook))
unfolding record_manual_repayment record_or_replay record_new record_for release_refusal
    within_balance insert_and_queue queue_repayment insert_repayment find_by_key ensure_balances
    opened_advance balanced_advance find_ledger_advance calculate_balance recalculate_balance
    confirmed_new_repayments is_confirmed run_is_paid balance_from opening_of next_ledger_status
    recalculated_advance new_repayment eq_text enqueue_event id_after upsert new_row find_key
    repayment_event ensure_integration_schema number_text same_key
run = refl

abbrev over : ManualRepaymentPayload
over = record payload { amount = pos 18001 }

over_refused :
    record_manual_repayment no_dates 5 over (codes "Ana") 9 cashbook
    ≡ repayment_refused exceeds_balance
unfolding record_manual_repayment record_or_replay record_new record_for release_refusal
    within_balance find_by_key ensure_balances opened_advance balanced_advance find_ledger_advance
    calculate_balance recalculate_balance confirmed_new_repayments is_confirmed run_is_paid
    balance_from opening_of next_ledger_status recalculated_advance eq_text
over_refused = refl

record_manual_repayment-bounded_example :
    let s = book_after (record_manual_repayment no_dates 5 payload (codes "Ana") 9 cashbook) in
    (amount : ℕ) × (before : Balance) × (pos 5000 ≡ pos amount)
    × (0 < amount)
    × (calculate_balance (ensure_balances ledger) 5 ≡ some before)
    × (after.balance + amount ≡ before.balance)
    × (after.paid ≡ before.paid + amount)
    × (calculate_balance s.ledger 5 ≡ some after)
record_manual_repayment-bounded_example =
    record_manual_repayment-bounded no_dates 5 payload (codes "Ana") 9 cashbook
      (book_after (record_manual_repayment no_dates 5 payload (codes "Ana") 9 cashbook)) 3 after run

method_stripped : strip (codes "GCash") ≡ codes "GCash"
unfolding strip lstrip rstrip is_space
method_stripped = refl

key_is_new : find_by_key (codes "k1") ledger.repayments ≡ none
unfolding find_by_key
key_is_new = refl

record_manual_repayment-again_example :
    record_manual_repayment no_dates 5 payload
      (codes "Ben")
      12
      (book_after (record_manual_repayment no_dates 5 payload (codes "Ana") 9 cashbook))
    ≡ already_recorded 3 after
record_manual_repayment-again_example =
    record_manual_repayment-again no_dates 5 payload (codes "k1") (codes "Ana") (codes "Ben") 9 12
      cashbook (book_after (record_manual_repayment no_dates 5 payload (codes "Ana") 9 cashbook)) 3
      after run refl method_stripped key_is_new

event_is_new : find_key (repayment_key 3) (ensure_integration_schema cashbook.outbox).rows ≡ none
unfolding find_key ensure_integration_schema
event_is_new = refl

record_manual_repayment-queued_example :
    let s = book_after (record_manual_repayment no_dates 5 payload (codes "Ana") 9 cashbook) in
    (row : Row) × (envelope : Envelope) × (find_key (repayment_key 3) s.outbox.rows ≡ some row)
    × (row.status ≡ pending)
    × (row.payload ≡ some envelope)
    × ((canonical_accounting_payload advance_repaid envelope).amount ≡ pos 5000)
record_manual_repayment-queued_example =
    record_manual_repayment-queued no_dates 5 payload (codes "Ana") 9 cashbook
      (book_after (record_manual_repayment no_dates 5 payload (codes "Ana") 9 cashbook)) 3 after run
      event_is_new

abbrev opened_five : LedgerAdvance
opened_five = record advance_five { outstanding_balance = some 30000 }

in_time : release_refusal no_dates opened_five payload.repayment_date ≡ none
unfolding release_refusal
in_time = refl

found_five : find_ledger_advance 5 (ensure_balances ledger).advances ≡ some opened_five
unfolding ensure_balances opened_advance balanced_advance find_ledger_advance
found_five = refl

not_cancelled :
    is_cancelled (balance_from opened_five (confirmed_new_repayments ledger 5)).status ≡ false
unfolding balance_from opening_of confirmed_new_repayments is_confirmed run_is_paid
    next_ledger_status eq_text
not_cancelled = refl

covered : 5000 ≤ (balance_from opened_five (confirmed_new_repayments ledger 5)).balance
unfolding balance_from opening_of confirmed_new_repayments is_confirmed run_is_paid eq_text
covered = omega arith

record_manual_repayment-accepts_example :
    IsRecorded 3 (record_manual_repayment no_dates 5 payload (codes "Ana") 9 cashbook)
record_manual_repayment-accepts_example =
    record_manual_repayment-accepts no_dates 5 5000 payload (codes "Ana") 9 cashbook opened_five
      refl (omega arith) key_is_new found_five in_time not_cancelled covered
