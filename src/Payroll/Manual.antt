-- ===== src/Payroll/Manual.antt =====
-- api/cash_repayments.py: the check of a repayment method, and `record_manual_repayment` past the
-- access check.
pub mod Posting
pub mod Bounded
pub mod Replayed
pub mod Queued
pub mod Accepted
mod Tests
use hidden_oasis_staff_payro.Common.{
  ℕ, zero, suc, ◌+◌, Bool, true, false, not, ◌&&◌, ◌||◌, Option, none, some, List, [], ◌∷◌, ◌++◌,
  ◌==◌, ltb, if◌then◌else◌, ℤ, pos, ltb_ℤ, pos_part, Text, codes, number_text, drop_blank, eq_text,
  is_empty, join_words, lower, ltb_text, replace_code, split_words, strip,
}
use hidden_oasis_staff_payro.Outbox.Envelope.{Envelope, centavos, absent}
use hidden_oasis_staff_payro.Outbox.Row.{Outbox, ensure_integration_schema}
use hidden_oasis_staff_payro.Outbox.Enqueue.{
  Event, Enqueued, queued, no_transaction, missing, enqueue_event,
}
use hidden_oasis_staff_payro.Payroll.Ledger.{
  Ledger, LedgerAdvance, LedgerRepayment, LedgerStatus, cancelled, Balance, find_ledger_advance,
  calculate_balance, ensure_balances, recalculate_balance,
}
use hidden_oasis_staff_payro.Payroll.Receipt.{text_or, insert_repayment, repayment_event}

-- `none` for the ValueError.
unfoldable pub require_explicit_method : Text → Option Text
require_explicit_method value =
    let method = strip value in
    let spaced = replace_code b'_' b' ' (replace_code b'-' b' ' (lower method)) in
    let words = join_words b' ' (drop_blank (split_words spaced)) in
    if is_empty method
    then none
    else if eq_text words (codes "payroll deduction") || eq_text words (codes "salary deduction")
    then none
    else some method

-- A validated payload: the amount in centavos, and the method as `require_explicit_method` gives it.
pub record ManualRepaymentPayload : Type 0 where
  pub amount : ℤ
  pub repayment_date : Text
  pub payment_method : Text
  pub idempotency_key : Option Text
  pub reference : Option Text
  pub notes : Option Text

pub record Cashbook : Type 0 where
  pub ledger : Ledger
  pub outbox : Outbox

pub data RepaymentRefusal : Type 0 where
  not_positive key_reused no_advance not_issued invalid_date predates_release : RepaymentRefusal
  advance_cancelled exceeds_balance : RepaymentRefusal
  -- an exception that is no HTTPException: an unreadable release date, a failing event
  server_error : RepaymentRefusal

pub data Recorded : Type 0 where
  repayment_refused : RepaymentRefusal → Recorded
  already_recorded : ℕ → Balance → Recorded
  recorded : ℕ → Balance → Cashbook → Recorded

abbrev pub has_key : Text → LedgerRepayment → Bool
has_key key r = elim r.idempotency_key [ none ↦ false | some k ↦ eq_text k key ]

unfoldable pub find_by_key : Text → List LedgerRepayment → Option LedgerRepayment
find_by_key key [] = none
find_by_key key (r ∷ rows) =
    let rest = find_by_key key rows in if has_key key r then some r else rest

abbrev is_active_row : LedgerRepayment → Bool
is_active_row r = elim r.active [ none ↦ true | some b ↦ b ]

unfoldable pub same_request : ℕ → ManualRepaymentPayload → ℕ → LedgerRepayment → Bool
same_request cash_advance_id payload amount existing =
    (existing.cash_advance_id == cash_advance_id)
    && eq_text (lower existing.source) (codes "manual")
    && (existing.amount == amount)
    && eq_text existing.repayment_date payload.repayment_date
    && eq_text (strip existing.payment_method) payload.payment_method
    && eq_text (text_or existing.reference) (text_or payload.reference)
    && eq_text (text_or existing.notes) (text_or payload.notes)
    && is_active_row existing

unfoldable pub replayed : ℕ → ManualRepaymentPayload → ℕ → LedgerRepayment → Cashbook → Recorded
replayed cash_advance_id payload amount existing s =
    if same_request cash_advance_id payload amount existing
    then elim (calculate_balance s.ledger cash_advance_id) [
      | none ↦ repayment_refused no_advance
      | some summary ↦ already_recorded existing.id summary
    ]
    else repayment_refused key_reused

unfoldable pub new_repayment :
    ℕ → ManualRepaymentPayload → ℕ → LedgerAdvance → Text → ℕ → ℕ → LedgerRepayment
new_repayment cash_advance_id payload amount advance display_name stamp id = record {
  id = id;
  cash_advance_id = cash_advance_id;
  employee_id = advance.employee_id;
  payment_date = payload.repayment_date;
  repayment_date = payload.repayment_date;
  amount = amount;
  source = codes "Manual";
  method = payload.payment_method;
  payment_method = payload.payment_method;
  payroll_run_id = none;
  payroll_item_id = none;
  reference = payload.reference;
  notes = payload.notes;
  idempotency_key = payload.idempotency_key;
  active = some true;
  created_by = some display_name;
  created_at = stamp;
  updated_by = some display_name;
  updated_at = stamp;
  reversed_by = none;
  reversed_at = none;
  reversal_reason = none;
}

abbrev pub is_cancelled : LedgerStatus → Bool
is_cancelled cancelled = true
is_cancelled _ = false

abbrev pub leading : ℕ → Text → Text
leading zero s = []
leading (suc n) [] = []
leading (suc n) (c ∷ s) = c ∷ leading n s

-- The event is queued in the transaction of the repayment. The columns of the advance that its
-- payload shows are not written in between.
unfoldable pub queue_repayment :
    LedgerRepayment → LedgerAdvance → ℕ → Outbox → Ledger × Balance → Recorded
queue_repayment r advance now outbox (l, summary) =
    elim (enqueue_event true true (repayment_event r advance) now outbox) [
      | queued _ o ↦ recorded r.id summary (record { ledger = l; outbox = o })
      | no_transaction ↦ repayment_refused server_error
      | missing ↦ repayment_refused server_error
    ]

unfoldable pub insert_and_queue :
    ℕ → ManualRepaymentPayload → ℕ → LedgerAdvance → Text → ℕ → Outbox → Ledger → Recorded
insert_and_queue cash_advance_id payload amount advance display_name now outbox l =
    let r =
      new_repayment cash_advance_id payload amount advance display_name now l.next_repayment_id in
    elim (recalculate_balance (insert_repayment r l) cash_advance_id now) [
      | none ↦ repayment_refused no_advance
      | some after ↦ queue_repayment r advance now outbox after
    ]

unfoldable pub within_balance :
    ℕ → ManualRepaymentPayload → ℕ → LedgerAdvance → Text → ℕ → Outbox → Ledger × Balance → Recorded
unfolding insert_and_queue
within_balance cash_advance_id payload amount advance display_name now outbox (l, current) =
    if is_cancelled current.status
    then repayment_refused advance_cancelled
    else if ltb current.balance amount
    then repayment_refused exceeds_balance
    else insert_and_queue cash_advance_id payload amount advance display_name now outbox l

-- `from_iso` stands for `date.fromisoformat`, `none` for its exception, and a number for a date.
module _ (from_iso : Text → Option ℕ) where
  unfoldable pub release_refusal : LedgerAdvance → Text → Option RepaymentRefusal
  release_refusal advance repayment_date =
      let released_on = leading 10 (strip (text_or advance.released_at)) in
      if not advance.release_confirmation_required
      then none
      else if is_empty released_on
      then some not_issued
      else elim (from_iso repayment_date) [
        | none ↦ some invalid_date
        | some repayment_on ↦ elim (from_iso released_on) [
          | none ↦ some server_error
          | some issued_on ↦ if ltb repayment_on issued_on then some predates_release else none
        ]
      ]

  unfoldable pub record_for :
      ℕ → ManualRepaymentPayload → ℕ → Text → ℕ → Cashbook → LedgerAdvance → Recorded
  record_for cash_advance_id payload amount display_name now s advance =
      elim (release_refusal advance payload.repayment_date) [
        | some refusal ↦ repayment_refused refusal
        | none ↦ elim (recalculate_balance s.ledger cash_advance_id now) [
          | none ↦ repayment_refused no_advance
          | some current ↦
              within_balance cash_advance_id payload amount advance display_name now s.outbox
                current
        ]
      ]

  unfoldable pub record_new : ℕ → ManualRepaymentPayload → ℕ → Text → ℕ → Cashbook → Recorded
  record_new cash_advance_id payload amount display_name now s =
      elim (find_ledger_advance cash_advance_id s.ledger.advances) [
        | none ↦ repayment_refused no_advance
        | some advance ↦ record_for cash_advance_id payload amount display_name now s advance
      ]

  unfoldable pub record_or_replay : ℕ → ManualRepaymentPayload → ℕ → Text → ℕ → Cashbook → Recorded
  record_or_replay cash_advance_id payload amount display_name now s =
      elim payload.idempotency_key [
        | none ↦ record_new cash_advance_id payload amount display_name now s
        | some key ↦ elim (find_by_key key s.ledger.repayments) [
          | none ↦ record_new cash_advance_id payload amount display_name now s
          | some existing ↦ replayed cash_advance_id payload amount existing s
        ]
      ]

  -- The schema functions commit before the transaction: a refusal leaves the tables as they do.
  unfoldable pub record_manual_repayment :
      ℕ → ManualRepaymentPayload → Text → ℕ → Cashbook → Recorded
  record_manual_repayment cash_advance_id payload display_name now s =
      if not (ltb_ℤ (pos 0) payload.amount)
      then repayment_refused not_positive
      else record_or_replay cash_advance_id payload (pos_part payload.amount) display_name now
          (record {
            ledger = ensure_balances s.ledger;
            outbox = ensure_integration_schema s.outbox;
          })
