-- ===== src/Outbox/Canonical.antt =====
-- core/integration_outbox.py: `canonical_accounting_payload`, which turns a queued envelope into the
-- review request that Accounting takes.
pub mod Effects
use hidden_oasis_staff_payro.Common.{
  ℕ, Bool, true, false, ◌&&◌, Option, none, some, [], ◌∷◌, if◌then◌else◌, ℤ, pos, Text, codes,
  eq_text, normalized, strip,
}
use hidden_oasis_staff_payro.Outbox.Envelope.{
  Envelope, EventType, run_approved, run_paid, thirteenth_month_paid, advance_released,
  advance_repaid, other_event, first_positive, or_else,
}
use hidden_oasis_staff_payro.Outbox.Settlement.{
  raw_method, settlement_conflict, payroll_deduction, documented_receipt,
}

pub data Effect : Type 0 where
  journal_only payable cash_out cash_in reference_only : Effect

-- What the links of a repayment ask of the reviewer.
pub data Review : Type 0 where
  reconcile_conflict settled_in_payroll no_review verify_method : Review

-- `proposed_links`, with the fields that are not constants.
pub data Links : Type 0 where
  no_links : Links
  payable_links : Option Text → Links
  payment_links : Option Text → Links
  release_links : Option Text → Option Text → Links
  repayment_links : Option Text → Option Text → Review → Links
  adjustment_links : Option ℕ → Option ℕ → ℤ → Links

pub record Outbound : Type 0 where
  pub effect : Effect
  pub amount : ℤ
  pub links : Links

abbrev strip_option : Option Text → Option Text
strip_option none = none
strip_option (some t) = some (strip t)

unfoldable pub repayment_outbound : Envelope → Outbound
repayment_outbound e = record {
  effect = if documented_receipt e then cash_in else reference_only;
  amount = first_positive (e.repayment.amount ∷ e.amount ∷ []);
  links =
      repayment_links
        (if payroll_deduction e
          then some (codes "payroll_deduction")
          else if documented_receipt e
          then strip_option (raw_method e)
          else none)
        (or_else e.repayment.employee_name e.employee_name)
        (if settlement_conflict e
          then reconcile_conflict
          else if payroll_deduction e
          then settled_in_payroll
          else if documented_receipt e
          then no_review
          else verify_method);
}

unfoldable pub by_event : EventType → Envelope → Outbound
unfolding repayment_outbound first_positive
by_event run_approved e = record {
  effect = payable;
  amount =
      first_positive (e.totals.net_pay ∷ e.totals.gross_pay ∷ e.run.net_pay ∷ e.run.gross_pay ∷ []);
  links = payable_links (or_else e.run.payment_date e.payment_date);
}
by_event run_paid e = record {
  effect = cash_out;
  amount = first_positive (e.totals.net_pay ∷ e.run.net_pay ∷ e.amount ∷ []);
  links = payment_links (or_else e.run.payment_method e.payment_method);
}
by_event thirteenth_month_paid e = record {
  effect = cash_out;
  amount = first_positive (e.run.net_13th_pay ∷ e.totals.net_pay ∷ e.amount ∷ []);
  links = payment_links (or_else e.run.payment_method e.payment_method);
}
by_event advance_released e = record {
  effect = cash_out;
  amount = first_positive (e.cash_advance.amount ∷ e.amount ∷ []);
  links =
      release_links (or_else e.cash_advance.release_method e.payment_method)
        (or_else e.cash_advance.employee_name e.employee_name);
}
by_event advance_repaid e = repayment_outbound e
by_event other_event e = record { effect = journal_only; amount = pos 0; links = no_links }

abbrev pub is_run_event : EventType → Bool
is_run_event run_approved = true
is_run_event run_paid = true
is_run_event _ = false

unfoldable pub is_adjustment : Envelope → Bool
is_adjustment e = elim e.run.revision_treatment [
  | none ↦ false
  | some t ↦ eq_text (normalized t) (codes "adjust_paid")
]

-- The request for one of the financial events; another event's envelope is sent as it is.
unfoldable pub canonical_accounting_payload : EventType → Envelope → Outbound
unfolding by_event
canonical_accounting_payload event e =
    if is_run_event event && is_adjustment e
    then record {
      effect = reference_only;
      amount = pos 0;
      links =
          adjustment_links e.run.id e.run.revision_of_run_id
            (first_positive (e.totals.net_pay ∷ e.run.net_pay ∷ []));
    }
    else by_event event e
