-- ===== src/Outbox/Envelope.antt =====
-- core/integration_outbox.py: the queued envelope, as far as `canonical_accounting_payload` decides
-- by it. The labels that it copies (source ids, revision, correlation, currency) are left out. A
-- field of a JSON object is `none` where it is absent, null or empty.
use hidden_oasis_staff_payro.Common.{
  ℕ, Option, none, some, List, [], ◌∷◌, if◌then◌else◌, ℤ, pos, ltb_ℤ, Text, codes, eq_text,
}

-- A JSON value where an amount stands, in centavos.
pub data Amount : Type 0 where
  absent malformed : Amount
  centavos : ℤ → Amount

-- `_money`, which is `money_or_zero`
unfoldable pub amount_or_zero : Amount → ℤ
amount_or_zero (centavos a) = a
amount_or_zero _ = pos 0

unfoldable pub first_positive : List Amount → ℤ
unfolding amount_or_zero
first_positive [] = pos 0
first_positive (a ∷ rest) =
    let later = first_positive rest in
    if ltb_ℤ (pos 0) (amount_or_zero a) then amount_or_zero a else later

pub record Totals : Type 0 where
  pub net_pay : Amount
  pub gross_pay : Amount

pub record RunFields : Type 0 where
  pub id : Option ℕ
  pub net_pay : Amount
  pub gross_pay : Amount
  pub net_13th_pay : Amount
  pub payment_date : Option Text
  pub payment_method : Option Text
  pub revision_treatment : Option Text
  pub revision_of_run_id : Option ℕ

pub record AdvanceFields : Type 0 where
  pub amount : Amount
  pub release_method : Option Text
  pub employee_name : Option Text

pub record RepaymentFields : Type 0 where
  pub amount : Amount
  pub payment_method : Option Text
  pub method : Option Text
  pub source : Option Text
  pub payroll_run_id : Option ℕ
  pub employee_name : Option Text

-- `envelope["payload"]`, or the envelope itself; a part that is no object reads as absent fields.
pub record Envelope : Type 0 where
  pub amount : Amount
  pub payment_date : Option Text
  pub payment_method : Option Text
  pub employee_name : Option Text
  pub totals : Totals
  pub run : RunFields
  pub cash_advance : AdvanceFields
  pub repayment : RepaymentFields

pub data EventType : Type 0 where
  run_approved run_paid thirteenth_month_paid advance_released advance_repaid : EventType
  -- an event outside ACCOUNTING_FINANCIAL_EVENTS
  other_event : EventType

abbrev event_name : EventType → Text
event_name run_approved = codes "payroll.run.approved"
event_name run_paid = codes "payroll.run.paid"
event_name thirteenth_month_paid = codes "payroll.13th_month.paid"
event_name advance_released = codes "cash_advance.released"
event_name advance_repaid = codes "cash_advance.repaid"
event_name other_event = []

unfoldable pub event_type : Text → EventType
event_type t =
    if eq_text t (event_name run_approved)
    then run_approved
    else if eq_text t (event_name run_paid)
    then run_paid
    else if eq_text t (event_name thirteenth_month_paid)
    then thirteenth_month_paid
    else if eq_text t (event_name advance_released)
    then advance_released
    else if eq_text t (event_name advance_repaid)
    then advance_repaid
    else other_event

-- `a or b`
abbrev pub or_else : {A : Type 0} → Option A → Option A → Option A
or_else none b = b
or_else (some a) _ = some a
