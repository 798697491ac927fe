-- ===== src/Payroll/Store.antt =====
-- core/payroll_engine.py: the tables that the life of a payroll run reads and writes. Amounts are in
-- centavos. A text column is `none` where it is NULL or empty.
use hidden_oasis_staff_payro.Common.{
  ℕ, Bool, Option, none, some, List, [], ◌∷◌, ◌==◌, if◌then◌else◌, ℤ, Text, codes, eq_text, strip,
}

-- The status of a run, as `normalize_payroll_status` reads it.
pub data RunStatus : Type 0 where
  draft for_owner_review approved paid locked : RunStatus
  unknown : Text → RunStatus

abbrev status_of : Text → RunStatus
status_of t =
    if eq_text t (codes "Draft")
    then draft
    else if eq_text t (codes "For Owner Review")
    then for_owner_review
    else if eq_text t (codes "Reviewed")
    then for_owner_review
    else if eq_text t (codes "Approved")
    then approved
    else if eq_text t (codes "Paid")
    then paid
    else if eq_text t (codes "Locked")
    then locked
    else unknown t

-- `status or ""`, without the white space around it; "Reviewed" is an old name of the review.
unfoldable pub normalize_payroll_status : Text → RunStatus
normalize_payroll_status t = status_of (strip t)

pub record Run : Type 0 where
  pub id : ℕ
  pub status : RunStatus
  pub period_end : Text
  pub payout_date : Text
  pub revision_of_run_id : Option ℕ
  pub superseded_by_run_id : Option ℕ
  pub revision_treatment : Option Text
  pub prepared_by : Option Text
  pub approved_by : Option Text
  pub approved_at : Option ℕ
  pub paid_at : Option ℕ
  pub locked_at : Option ℕ
  pub reopen_reason : Option Text

pub record Item : Type 0 where
  pub id : ℕ
  pub payroll_run_id : ℕ
  pub employee_id : ℕ
  pub gross_pay : ℤ
  pub sss_ee : ℤ
  pub philhealth_ee : ℤ
  pub pagibig_ee : ℤ
  pub tax : ℤ
  pub sss_er : ℤ
  pub sss_ec : ℤ
  pub philhealth_er : ℤ
  pub pagibig_er : ℤ
  pub cash_advance_deduction : ℤ
  pub other_deductions : ℤ
  pub net_pay : ℤ

pub data AdvanceStatus : Type 0 where
  pending released partially_paid advance_approved fully_paid : AdvanceStatus
  other_status : Text → AdvanceStatus

pub record Advance : Type 0 where
  pub id : ℕ
  pub employee_id : ℕ
  pub amount : ℕ
  pub outstanding_balance : ℕ
  pub status : AdvanceStatus
  pub request_date : Text
  pub release_confirmation_required : Bool
  pub released_at : Option Text
  pub custom_next_deduction : Option ℕ
  pub repayment_per_cutoff : ℕ

pub record Repayment : Type 0 where
  pub cash_advance_id : ℕ
  pub payroll_run_id : Option ℕ
  pub payment_date : Text
  pub amount : ℕ

pub record Store : Type 0 where
  pub runs : List Run
  pub items : List Item
  pub advances : List Advance
  pub repayments : List Repayment

unfoldable pub find_run : ℕ → List Run → Option Run
find_run i [] = none
find_run i (r ∷ runs) = let rest = find_run i runs in if r.id == i then some r else rest

unfoldable pub find_advance : ℕ → List Advance → Option Advance
find_advance i [] = none
find_advance i (a ∷ advances) =
    let rest = find_advance i advances in if a.id == i then some a else rest

-- `UPDATE ... WHERE id=?`
abbrev pub run_where_id : ℕ → (Run → Run) → Run → Run
run_where_id i f r = if r.id == i then f r else r

abbrev pub advance_where_id : ℕ → (Advance → Advance) → Advance → Advance
advance_where_id i f a = if a.id == i then f a else a
