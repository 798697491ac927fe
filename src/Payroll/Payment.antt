-- ===== src/Payroll/Payment.antt =====
-- api/payroll_mark_paid.py: `mark_payroll_run_paid` past the payroll-user check.
pub mod Paid
pub mod Tests
use hidden_oasis_staff_payro.Common.{
  ℕ, Bool, true, false, not, Option, none, some, List, [], ◌∷◌, ◌++◌, map, is_some, ltb, ◌==◌,
  if◌then◌else◌, Text, codes, eq_text, strip,
}
use hidden_oasis_staff_payro.Payroll.Store.{
  Store, Run, RunStatus, draft, for_owner_review, approved, paid, locked, unknown, Item, find_run,
  run_where_id,
}
use hidden_oasis_staff_payro.Payroll.Lifecycle.{same_status, paid_run}
use hidden_oasis_staff_payro.Payroll.Queue.{Entry, create_accounting_queue_for_payroll}
use hidden_oasis_staff_payro.Payroll.Revision.{
  Ancestry, no_original, original, ancestry_refused, RevisionRefusal, Treatment, replace_unpaid,
  adjust_paid, untreated, revision_parent_for_payment,
}
use hidden_oasis_staff_payro.Payroll.Ledger.{Ledger, LedgerRun, LedgerAdvance, LedgerRepayment}
use hidden_oasis_staff_payro.Payroll.Apply.{apply_payroll_cash_advance_repayments}

pub data PaymentEntry : Type 0 where
  superseded_by_revision : ℕ → ℕ → PaymentEntry
  replacement_finalized : ℕ → ℕ → PaymentEntry
  event_failed : ℕ → Text → PaymentEntry
  marked_paid : ℕ → Option Text → PaymentEntry

-- The tables; the ledger sees the same runs by `ledger_run`.
pub record Payroll : Type 0 where
  pub runs : List Run
  pub items : List Item
  pub advances : List LedgerAdvance
  pub repayments : List LedgerRepayment
  pub next_repayment_id : ℕ
  pub queue : List Entry
  pub handoffs : List ℕ
  pub audit : List PaymentEntry

pub record MarkPaidRequest : Type 0 where
  pub is_owner : Bool
  pub confirmation : Text
  pub reference : Option Text
  pub actor : Text
  -- what `build_payroll_preflight_checks` reports
  pub blockers : ℕ
  -- the exception of `enqueue_payroll_run`
  pub event_error : Option Text
  pub today : Text
  pub now : ℕ

pub data PaymentRefusal : Type 0 where
  not_owner not_confirmed run_not_found not_approved already_paid has_blockers : PaymentRefusal
  not_payable : RevisionRefusal → PaymentRefusal
  -- the 404 of a recalculation
  advance_not_found : PaymentRefusal

pub data Payment : Type 0 where
  payment_refused : PaymentRefusal → Payment
  run_paid : Payroll → Payment

unfoldable pub status_text : RunStatus → Text
status_text draft = codes "Draft"
status_text for_owner_review = codes "For Owner Review"
status_text approved = codes "Approved"
status_text paid = codes "Paid"
status_text locked = codes "Locked"
status_text (unknown t) = t

unfoldable pub ledger_run : Run → LedgerRun
unfolding status_text
ledger_run r = record {
  id = r.id;
  status = status_text r.status;
  period_end = r.period_end;
  payout_date = some r.payout_date;
  revision_treatment = r.revision_treatment;
}

abbrev pub ledger_of : Payroll → Ledger
ledger_of p = record {
  runs = map ledger_run p.runs;
  advances = p.advances;
  repayments = p.repayments;
  next_repayment_id = p.next_repayment_id;
}

-- The guards before the ancestry of a revision is looked at.
unfoldable pub payment_guard : Run → Option PaymentRefusal
payment_guard run =
    if not (same_status run.status approved)
    then some not_approved
    else if is_some run.paid_at
    then some already_paid
    else none

abbrev superseded_run : ℕ → Run → Run
superseded_run run_id r = record r { superseded_by_run_id = some run_id }

-- What the payment does to the original of a revision.
unfoldable pub settle_original : ℕ → Ancestry → Payroll → Payroll
settle_original run_id (original parent adjust_paid) p = record p {
  runs = map (run_where_id parent.id (superseded_run run_id)) p.runs;
  audit = p.audit ++ superseded_by_revision parent.id run_id ∷ [];
}
settle_original run_id (original parent replace_unpaid) p = record p {
  audit = p.audit ++ replacement_finalized parent.id run_id ∷ [];
}
settle_original run_id (original parent untreated) p = p
settle_original run_id no_original p = p
settle_original run_id (ancestry_refused _) p = p

-- `enqueue_payroll_run`, and the audit entry of its failure.
unfoldable pub create_event : ℕ → MarkPaidRequest → Payroll → Payroll
create_event run_id req p = elim req.event_error [
  | none ↦ record p { handoffs = p.handoffs ++ run_id ∷ [] }
  | some error ↦ record p { audit = p.audit ++ event_failed run_id error ∷ [] }
]

abbrev stripped : Option Text → Option Text
stripped none = none
stripped (some []) = none
stripped (some (c ∷ t)) = some (strip (c ∷ t))

-- The status, the journal lines, the event and the audit entry, in their order.
unfoldable pub finish_payment : ℕ → MarkPaidRequest → Payroll → Ledger → Payroll
unfolding create_event
finish_payment run_id req p l =
    let runs = map (run_where_id run_id (paid_run req.now)) p.runs in
    let store : Store = record { runs = runs; items = p.items; advances = []; repayments = [] } in
    let stored = record p {
      runs = runs;
      advances = l.advances;
      repayments = l.repayments;
      next_repayment_id = l.next_repayment_id;
      queue = create_accounting_queue_for_payroll run_id store p.queue;
    } in
    let done = create_event run_id req stored in
    record done { audit = done.audit ++ marked_paid run_id (stripped req.reference) ∷ [] }

unfoldable pub pay_run : ℕ → MarkPaidRequest → Ancestry → Payroll → Payment
unfolding settle_original finish_payment
pay_run run_id req ancestry p =
    let settled = settle_original run_id ancestry p in
    elim (apply_payroll_cash_advance_repayments run_id (some req.actor) (stripped req.reference)
      req.today req.now settled.items (ledger_of settled)) [
        | none ↦ payment_refused advance_not_found
        | some l ↦ run_paid (finish_payment run_id req settled l)
      ]

unfoldable pub pay_checked : ℕ → MarkPaidRequest → Payroll → Ancestry → Payment
unfolding pay_run
pay_checked run_id req p (ancestry_refused e) = payment_refused (not_payable e)
pay_checked run_id req p no_original =
    if ltb 0 req.blockers then payment_refused has_blockers else pay_run run_id req no_original p
pay_checked run_id req p (original parent t) =
    if ltb 0 req.blockers
    then payment_refused has_blockers
    else pay_run run_id req (original parent t) p

unfoldable pub mark_payroll_run_paid : ℕ → MarkPaidRequest → Payroll → Payment
unfolding payment_guard pay_checked
mark_payroll_run_paid run_id req p =
    if not req.is_owner
    then payment_refused not_owner
    else if not (eq_text (strip req.confirmation) (codes "MARK PAID"))
    then payment_refused not_confirmed
    else elim (find_run run_id p.runs) [
      | none ↦ payment_refused run_not_found
      | some run ↦ elim (payment_guard run) [
        | some refusal ↦ payment_refused refusal
        | none ↦ pay_checked run_id req p (revision_parent_for_payment p.runs run)
      ]
    ]
