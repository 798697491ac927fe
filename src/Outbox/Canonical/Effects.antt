-- ===== src/Outbox/Canonical/Effects.antt =====
-- What the review request of a queued envelope may ask Accounting to post.
use hidden_oasis_staff_payro.Common.{
  true, false, ◌≡◌, ◌↔◌, ◌⊎◌, inl, inr, refl, arith, Text, eq_text, eq_text_iff, codes,
}
use hidden_oasis_staff_payro.Outbox.Envelope.{Envelope, advance_repaid}
use hidden_oasis_staff_payro.Outbox.Settlement.{
  one_of, payroll_methods, receipt_methods, normalized_method, raw_method, method_is_payroll,
  method_is_receipt, source_is_payroll, run_linked_as_payroll, settlement_conflict,
  payroll_deduction, documented_receipt,
}
use hidden_oasis_staff_payro.Outbox.Canonical.{
  cash_in, canonical_accounting_payload, repayment_outbound,
}

payroll_methods-cases :
    (t : Text)
    → one_of t payroll_methods ≡ true
    → (t ≡ codes "payroll_deduction") ⊎ (t ≡ codes "salary_deduction")
unfolding one_of
payroll_methods-cases t h =
    ground
      (arith, eq_text_iff t (codes "payroll_deduction"), eq_text_iff t (codes "salary_deduction"))

-- No method is both a payroll deduction and a receipt.
disjoint_methods : (t : Text) → one_of t payroll_methods ≡ true → one_of t receipt_methods ≡ false
unfolding one_of eq_text
disjoint_methods t h = elim (payroll_methods-cases t h) [ inl e ↦ rw e refl | inr e ↦ rw e refl ]

receipt-not-payroll : (e : Envelope) → method_is_receipt e ≡ true → method_is_payroll e ≡ false
unfolding method_is_receipt method_is_payroll
receipt-not-payroll e h = ground (arith, disjoint_methods (normalized_method (raw_method e)))

documented_iff :
    (e : Envelope)
    → (documented_receipt e ≡ true) ↔ (
        (method_is_receipt e ≡ true)
        × (source_is_payroll e ≡ false)
        × (run_linked_as_payroll e ≡ false))
unfolding documented_receipt payroll_deduction settlement_conflict
documented_iff e = ground (arith, receipt-not-payroll e)

-- A repayment asks for cash in exactly when its method is a receipt, its source is not payroll, and it is not tied to a payroll run by
-- anything but a manual source.
pub repayment-cash_in :
    (e : Envelope)
    → ((canonical_accounting_payload advance_repaid e).effect ≡ cash_in) ↔ (
        (method_is_receipt e ≡ true)
        × (source_is_payroll e ≡ false)
        × (run_linked_as_payroll e ≡ false))
unfolding canonical_accounting_payload repayment_outbound
repayment-cash_in e = ground (arith, documented_iff e)
