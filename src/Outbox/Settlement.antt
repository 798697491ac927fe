-- ===== src/Outbox/Settlement.antt =====
-- core/integration_outbox.py: how a cash-advance repayment was settled, by the source, the method
-- and the payroll run that its event names (the branch `cash_advance.repaid` of
-- `canonical_accounting_payload`).
use hidden_oasis_staff_payro.Common.{
  Bool, false, not, ◌&&◌, ◌||◌, Option, none, some, List, [], ◌∷◌, if◌then◌else◌, ◌==◌, is_some,
  Text, codes, eq_text, drop_blank, join_words, normalized, split_words,
}
use hidden_oasis_staff_payro.Outbox.Envelope.{Envelope, or_else}

abbrev text_of : Option Text → Text
text_of none = []
text_of (some t) = t

-- `.replace("-", " ").replace("_", " ")`
spaced : Text → Text
spaced [] = []
spaced (c ∷ s) = (if (c == b'-') || (c == b'_') then b' ' else c) ∷ spaced s

-- `"_".join(....strip().lower().replace("-", " ").replace("_", " ").split())`
unfoldable pub normalized_method : Option Text → Text
unfolding spaced
normalized_method raw =
    join_words b'_' (drop_blank (split_words (spaced (normalized (text_of raw)))))

unfoldable pub one_of : Text → List Text → Bool
one_of t [] = false
one_of t (u ∷ texts) = eq_text t u || one_of t texts

abbrev pub payroll_methods : List Text
payroll_methods = codes "payroll_deduction" ∷ codes "salary_deduction" ∷ []

abbrev pub receipt_methods : List Text
receipt_methods =
    codes "cash"
    ∷ codes "gcash"
    ∷ codes "bank"
    ∷ codes "bank_transfer"
    ∷ codes "bank_deposit"
    ∷ codes "cheque"
    ∷ codes "check"
    ∷ codes "maya"
    ∷ []

abbrev pub raw_method : Envelope → Option Text
raw_method e = or_else (or_else e.repayment.payment_method e.repayment.method) e.payment_method

unfoldable pub method_is_payroll : Envelope → Bool
method_is_payroll e = one_of (normalized_method (raw_method e)) payroll_methods

unfoldable pub method_is_receipt : Envelope → Bool
method_is_receipt e = one_of (normalized_method (raw_method e)) receipt_methods

unfoldable pub source_is_manual : Envelope → Bool
source_is_manual e = eq_text (normalized (text_of e.repayment.source)) (codes "manual")

unfoldable pub source_is_payroll : Envelope → Bool
source_is_payroll e = eq_text (normalized (text_of e.repayment.source)) (codes "payroll")

unfoldable pub run_linked_as_payroll : Envelope → Bool
run_linked_as_payroll e = is_some e.repayment.payroll_run_id && not (source_is_manual e)

unfoldable pub settlement_conflict : Envelope → Bool
settlement_conflict e =
    (source_is_manual e && method_is_payroll e)
    || (source_is_payroll e && method_is_receipt e)
    || (run_linked_as_payroll e && method_is_receipt e)

unfoldable pub payroll_deduction : Envelope → Bool
payroll_deduction e =
    not (settlement_conflict e)
    && (method_is_payroll e || source_is_payroll e || run_linked_as_payroll e)

unfoldable pub documented_receipt : Envelope → Bool
documented_receipt e =
    not (settlement_conflict e) && not (payroll_deduction e) && method_is_receipt e
