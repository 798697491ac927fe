-- ===== src/Payroll/Ledger.antt =====
-- api/cash_advance_service.py: `normalize_method`, `confirmed_new_repayments`, `calculate_balance`,
-- `recalculate_balance` and the balances that `ensure_schema` fills in. A column is `none` where it is NULL.
pub mod Recalculated
pub mod Opened
pub mod Tests
use hidden_oasis_staff_payro.Common.{
  ℕ, zero, suc, ◌+◌, ◌-◌, Bool, true, false, ◌&&◌, ◌||◌, Option, none, some, List, [], ◌∷◌, map,
  some_row, sum_by, ltb, leb, ◌==◌, if◌then◌else◌, Text, codes, eq_text, normalized, is_empty,
  has_part,
}

pub record LedgerRun : Type 0 where
  pub id : ℕ
  pub status : Text
  pub period_end : Text
  pub payout_date : Option Text
  pub revision_treatment : Option Text

pub record LedgerRepayment : Type 0 where
  pub id : ℕ
  pub cash_advance_id : ℕ
  pub employee_id : ℕ
  pub repayment_date : Text
  pub payment_date : Text
  pub amount : ℕ
  pub source : Text
  pub payment_method : Text
  pub method : Text
  pub payroll_run_id : Option ℕ
  pub payroll_item_id : Option ℕ
  pub reference : Option Text
  pub notes : Option Text
  pub idempotency_key : Option Text
  pub active : Option Bool
  pub created_by : Option Text
  pub created_at : ℕ
  pub updated_by : Option Text
  pub updated_at : ℕ
  pub reversed_by : Option Text
  pub reversed_at : Option ℕ
  pub reversal_reason : Option Text

pub data LedgerStatus : Type 0 where
  cancelled fully_repaid partially_repaid active_advance : LedgerStatus
  pending_advance rejected approved_advance released_advance : LedgerStatus
  another_status : Text → LedgerStatus

pub record LedgerAdvance : Type 0 where
  pub id : ℕ
  pub employee_id : ℕ
  pub advance_date : Text
  pub repayment_method : Option Text
  pub release_confirmation_required : Bool
  pub released_at : Option Text
  pub release_method : Option Text
  pub overpayment_credit : ℕ
  pub amount : ℕ
  pub ledger_opening_balance : Option ℕ
  pub remaining_balance : Option ℕ
  pub outstanding_balance : Option ℕ
  pub status : LedgerStatus
  pub deduction_per_payroll : ℕ
  pub repayment_per_cutoff : Option ℕ
  pub updated_by : Option Text
  pub updated_at : ℕ

pub record Ledger : Type 0 where
  pub runs : List LedgerRun
  pub advances : List LedgerAdvance
  pub repayments : List LedgerRepayment
  pub next_repayment_id : ℕ

pub data Method : Type 0 where
  manual_repayment payroll_deduction_method : Method

-- `none` for the 422.
unfoldable pub normalize_method : Text → Option Method
normalize_method value =
    let text = if is_empty value then codes "payroll deduction" else normalized value in
    if has_part (codes "manual") text
    then some manual_repayment
    else if has_part (codes "payroll") text
    then some payroll_deduction_method
    else none

-- `COALESCE(r.active,1)=1`
abbrev is_active : LedgerRepayment → Bool
is_active r = elim r.active [ none ↦ true | some b ↦ b ]

abbrev is_paid_status : Text → Bool
is_paid_status t =
    eq_text t (codes "Paid") || eq_text t (codes "Locked") || eq_text t (codes "Released")

-- The LEFT JOIN: the run of the repayment, if it has one, is paid.
unfoldable pub run_is_paid : List LedgerRun → LedgerRepayment → Bool
run_is_paid runs r = elim r.payroll_run_id [
  | none ↦ false
  | some i ↦ some_row (λ run. (run.id == i) && is_paid_status run.status) runs
]

-- The WHERE clause of `confirmed_new_repayments`.
unfoldable pub is_confirmed : List LedgerRun → ℕ → LedgerRepayment → Bool
is_confirmed runs advance_id r =
    (r.cash_advance_id == advance_id)
    && is_active r
    && (eq_text r.source (codes "Manual") || run_is_paid runs r)

unfoldable pub confirmed_new_repayments : Ledger → ℕ → ℕ
unfolding is_confirmed
confirmed_new_repayments l advance_id =
    sum_by (λ r. if is_confirmed l.runs advance_id r then r.amount else 0) l.repayments

-- `a or b` on amounts
abbrev or_amount : Option ℕ → ℕ → ℕ
or_amount none b = b
or_amount (some zero) b = b
or_amount (some (suc a)) b = suc a

unfoldable pub opening_of : LedgerAdvance → ℕ
opening_of a = elim a.ledger_opening_balance [
  | some n ↦ n
  | none ↦ or_amount a.remaining_balance (or_amount a.outstanding_balance a.amount)
]

pub record Balance : Type 0 where
  pub amount : ℕ
  pub paid : ℕ
  pub balance : ℕ
  pub status : LedgerStatus

abbrev kept_status : LedgerStatus → LedgerStatus
kept_status pending_advance = pending_advance
kept_status rejected = rejected
kept_status approved_advance = approved_advance
kept_status released_advance = released_advance
kept_status _ = active_advance

unfoldable pub next_ledger_status : LedgerStatus → ℕ → ℕ → LedgerStatus
next_ledger_status cancelled balance total_paid = cancelled
next_ledger_status old balance total_paid =
    if leb balance 0
    then fully_repaid
    else if ltb 0 total_paid
    then partially_repaid
    else kept_status old

unfoldable pub balance_from : LedgerAdvance → ℕ → Balance
unfolding opening_of next_ledger_status
balance_from a new_paid =
    let opening = opening_of a in
    let total_paid = (a.amount - opening) + new_paid in
    record {
      amount = a.amount;
      paid = total_paid;
      balance = opening - new_paid;
      status = next_ledger_status a.status (opening - new_paid) total_paid;
    }

unfoldable pub find_ledger_advance : ℕ → List LedgerAdvance → Option LedgerAdvance
find_ledger_advance i [] = none
find_ledger_advance i (a ∷ advances) =
    let rest = find_ledger_advance i advances in if a.id == i then some a else rest

-- `COALESCE(NULLIF(a,0), b)`
abbrev pub nonzero_or : Option ℕ → Option ℕ → Option ℕ
nonzero_or none b = b
nonzero_or (some zero) b = b
nonzero_or (some (suc a)) b = some (suc a)

abbrev pub first_or : Option ℕ → ℕ → ℕ
first_or none b = b
first_or (some a) b = a

-- Three UPDATEs of balances of `ensure_schema`, in their order.
unfoldable pub opened_advance : LedgerAdvance → LedgerAdvance
opened_advance a = record a {
  ledger_opening_balance = some (
      first_or a.ledger_opening_balance
        (first_or a.outstanding_balance (first_or a.remaining_balance a.amount)));
}

abbrev pub ensured_remaining : Option ℕ → Option ℕ → ℕ → ℕ
ensured_remaining remaining outstanding amount =
    first_or (nonzero_or remaining none) (first_or outstanding amount)

abbrev pub ensured_outstanding : Option ℕ → Option ℕ → ℕ → ℕ
ensured_outstanding remaining outstanding amount =
    first_or (nonzero_or outstanding none) (ensured_remaining remaining outstanding amount)

unfoldable pub balanced_advance : LedgerAdvance → LedgerAdvance
balanced_advance a = record a {
  remaining_balance = some (ensured_remaining a.remaining_balance a.outstanding_balance a.amount);
  outstanding_balance =
      some (ensured_outstanding a.remaining_balance a.outstanding_balance a.amount);
}

-- The columns that a balance is computed from; the other columns that `ensure_schema` fills in, and
-- the tables and indexes that it makes, are left out.
unfoldable pub ensure_balances : Ledger → Ledger
ensure_balances l = record l {
  advances = map (λ a. balanced_advance (opened_advance a)) l.advances;
}

-- `none` for the 404.
unfoldable pub calculate_balance : Ledger → ℕ → Option Balance
calculate_balance l advance_id = elim (find_ledger_advance advance_id l.advances) [
  | none ↦ none
  | some a ↦ some (balance_from a (confirmed_new_repayments l advance_id))
]

unfoldable pub recalculated_advance : Balance → ℕ → LedgerAdvance → LedgerAdvance
recalculated_advance b now a = record a {
  remaining_balance = some b.balance;
  outstanding_balance = some b.balance;
  status = b.status;
  repayment_per_cutoff = some (or_amount a.repayment_per_cutoff a.deduction_per_payroll);
  updated_at = now;
}

abbrev pub ledger_where_id : ℕ → (LedgerAdvance → LedgerAdvance) → LedgerAdvance → LedgerAdvance
ledger_where_id i f a = if a.id == i then f a else a

unfoldable pub recalculate_balance : Ledger → ℕ → ℕ → Option (Ledger × Balance)
recalculate_balance l advance_id now = elim (calculate_balance l advance_id) [
  | none ↦ none
  | some b ↦ some (
    record l {
      advances = map (ledger_where_id advance_id (recalculated_advance b now)) l.advances;
    },
    b,
  )
]
