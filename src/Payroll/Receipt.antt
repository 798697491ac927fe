-- ===== src/Payroll/Receipt.antt =====
-- The INSERT of a repayment, and core/integration_accounting.py:
-- `build_cash_advance_repayment_payload`, as far as the outbox reads what it builds.
use hidden_oasis_staff_payro.Common.{
  ◌+◌, Option, none, some, [], ◌∷◌, ◌++◌, if◌then◌else◌, pos, Text, codes, number_text, is_empty,
}
use hidden_oasis_staff_payro.Outbox.Envelope.{Envelope, centavos, absent}
use hidden_oasis_staff_payro.Outbox.Enqueue.{Event}
use hidden_oasis_staff_payro.Payroll.Ledger.{Ledger, LedgerAdvance, LedgerRepayment}

-- `str(value or "")`
abbrev pub text_or : Option Text → Text
text_or none = []
text_or (some t) = t

unfoldable pub insert_repayment : LedgerRepayment → Ledger → Ledger
insert_repayment r l = record l {
  repayments = l.repayments ++ r ∷ [];
  next_repayment_id = l.next_repayment_id + 1;
}

-- An empty text reads as an absent field.
abbrev filled : Text → Option Text
filled t = if is_empty t then none else some t

-- The queued payload: the rows of the repayment and of its advance.
unfoldable pub repayment_payload : LedgerRepayment → LedgerAdvance → Envelope
repayment_payload r a = record {
  amount = absent;
  payment_date = none;
  payment_method = none;
  employee_name = none;
  totals = record { net_pay = absent; gross_pay = absent };
  run = record {
    id = none;
    net_pay = absent;
    gross_pay = absent;
    net_13th_pay = absent;
    payment_date = none;
    payment_method = none;
    revision_treatment = none;
    revision_of_run_id = none;
  };
  cash_advance = record {
    amount = centavos (pos a.amount);
    release_method = a.release_method;
    employee_name = none;
  };
  repayment = record {
    amount = centavos (pos r.amount);
    payment_method = filled r.payment_method;
    method = filled r.method;
    source = filled r.source;
    payroll_run_id = r.payroll_run_id;
    employee_name = none;
  };
}

-- The arguments of the call of `enqueue_event`, `max_attempts` by its default.
unfoldable pub repayment_event : LedgerRepayment → LedgerAdvance → Event
repayment_event r a = record {
  destination = codes "accounting";
  event_type = codes "cash_advance.repaid";
  external_source = codes "hidden_oasis_staff_payroll";
  external_id = codes "cash-advance-repayment:" ++ number_text r.id;
  source_type = some (codes "Cash Advance Repayment");
  source_id = some r.id;
  payload = repayment_payload r a;
  max_attempts = 8;
}
