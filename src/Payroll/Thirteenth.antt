-- ===== src/Payroll/Thirteenth.antt =====
-- core/payroll_engine.py: `compute_13th_month_basis`, `save_13th_month_run` and
-- `create_accounting_queue_for_13th_month`. The amounts of a request and of payroll items are parts of
-- a centavo, `unit` of them to the centavo; those of runs, lines and entries are rounded to centavos.
-- Labels, descriptions and accounts, which are constants, are left out, and the entries are those of
-- source '13th Month'.
pub mod Save
pub mod Saved
pub mod Rounded
pub mod Once
mod Tests
use hidden_oasis_staff_payro.Payroll.Money.{money, in_units}
use hidden_oasis_staff_payro.Common.{
  ℕ, ◌*◌, ◌+◌, ◌/◌, Bool, true, false, not, ◌&&◌, ◌||◌, Option, none, some, List, [], ◌∷◌, ◌++◌,
  select, some_row, ◌==◌, leb, if◌then◌else◌, value_or, ℤ, pos, negsuc, ◌+ℤ◌, ◌-ℤ◌, ltb_ℤ, Text,
  codes, eq_text,
}

-- A row of `payroll_items` joined with its run.
pub record PaidItem : Type 0 where
  pub employee_id : ℕ
  pub regular_pay : ℤ
  pub paid_leave_pay : ℤ
  pub run_period_start : Text
  pub run_status : Text
  pub run_superseded_by : Option ℕ

abbrev is_final_text : Text → Bool
is_final_text status =
    eq_text status (codes "Approved")
    || (eq_text status (codes "Paid") || eq_text status (codes "Locked"))

abbrev is_of_run_kept : Option ℕ → Bool
is_of_run_kept none = true
is_of_run_kept (some _) = false

-- `substr(pr.period_start,1,4)`
abbrev first_four : Text → Text
first_four (a ∷ b ∷ c ∷ d ∷ _) = a ∷ b ∷ c ∷ d ∷ []
first_four t = t

-- The WHERE clause of the basis; the year is given as text.
abbrev pub counts_for : ℕ → Text → PaidItem → Bool
counts_for employee_id year i =
    (i.employee_id == employee_id)
    && (eq_text (first_four i.run_period_start) year
        && (is_final_text i.run_status && is_of_run_kept i.run_superseded_by))

unfoldable pub basis_total : List PaidItem → ℤ
basis_total [] = pos 0
basis_total (i ∷ items) = (i.regular_pay +ℤ i.paid_leave_pay) +ℤ basis_total items

unfoldable pub compute_13th_month_basis : ℕ → List PaidItem → ℕ → Text → ℤ
unfolding basis_total
compute_13th_month_basis unit items employee_id year =
    money unit (basis_total (select (counts_for employee_id year) items))

pub record ThirteenthRun : Type 0 where
  pub id : ℕ
  pub employee_id : ℕ
  pub year : ℕ
  pub period_label : Text
  pub basis_amount : ℤ
  pub base_13th_amount : ℤ
  pub adjustment_amount : ℤ
  pub deductions : ℤ
  pub net_13th_pay : ℤ
  pub status : Text
  pub release_date : Option Text
  pub prepared_by : Text
  pub notes : Text
  pub created_at : ℕ
  pub updated_at : ℕ

pub data LineKind : Type 0 where
  basis earning adjustment deduction : LineKind

pub record ThirteenthLine : Type 0 where
  pub run_id : ℕ
  pub kind : LineKind
  pub amount : ℤ
  pub notes : Text
  pub sort_order : ℕ

pub record ThirteenthEntry : Type 0 where
  pub source_id : ℕ
  pub entry_date : Text
  pub amount : ℤ

pub data Action : Type 0 where
  saved_run event_failed : Action

pub record Audit : Type 0 where
  pub actor : Text
  pub action : Action
  pub record_id : ℕ

pub record Book : Type 0 where
  pub employees : List ℕ
  pub runs : List ThirteenthRun
  pub next_run_id : ℕ
  pub lines : List ThirteenthLine
  pub entries : List ThirteenthEntry
  pub audits : List Audit

-- The arguments; the exception of `enqueue_13th_month`, if it raises, comes with them.
pub record SaveRequest : Type 0 where
  pub employee_id : ℕ
  pub year : ℕ
  pub period_label : Text
  pub basis_amount : ℤ
  pub adjustment_amount : ℤ
  pub deductions : ℤ
  pub status : Text
  pub release_date : Option Text
  pub prepared_by : Text
  pub notes : Text
  pub event_error : Option Text
  pub today : Text
  pub now : ℕ

-- `money(basis / 12.0)`: the unit is a twelfth of the one of the basis.
unfoldable pub base_13th : ℕ → SaveRequest → ℤ
base_13th unit q = money (12 * unit) q.basis_amount

-- The base is rounded before the sum, and the sum after it.
unfoldable pub net_13th : ℕ → SaveRequest → ℤ
unfolding base_13th
net_13th unit q =
    money unit ((in_units unit (base_13th unit q) +ℤ q.adjustment_amount) -ℤ q.deductions)

abbrev pub is_run_of : SaveRequest → ThirteenthRun → Bool
is_run_of q r =
    (r.employee_id == q.employee_id)
    && ((r.year == q.year) && eq_text r.period_label q.period_label)

unfoldable pub find_thirteenth : SaveRequest → List ThirteenthRun → Option ThirteenthRun
find_thirteenth q [] = none
find_thirteenth q (r ∷ runs) =
    let rest = find_thirteenth q runs in if is_run_of q r then some r else rest

unfoldable pub saved_thirteenth : ℕ → SaveRequest → ℕ → ℕ → ThirteenthRun
unfolding net_13th
saved_thirteenth unit q id created_at = record {
  id = id;
  employee_id = q.employee_id;
  year = q.year;
  period_label = q.period_label;
  basis_amount = money unit q.basis_amount;
  base_13th_amount = base_13th unit q;
  adjustment_amount = money unit q.adjustment_amount;
  deductions = money unit q.deductions;
  net_13th_pay = net_13th unit q;
  status = q.status;
  release_date = q.release_date;
  prepared_by = q.prepared_by;
  notes = q.notes;
  created_at = created_at;
  updated_at = q.now;
}

-- `INSERT ... ON CONFLICT(employee_id, year, period_label) DO UPDATE`
unfoldable pub upsert_thirteenth : ℕ → SaveRequest → ℕ → List ThirteenthRun → List ThirteenthRun
unfolding saved_thirteenth
upsert_thirteenth unit q next [] = saved_thirteenth unit q next q.now ∷ []
upsert_thirteenth unit q next (r ∷ runs) =
    let rest = upsert_thirteenth unit q next runs in
    if is_run_of q r then saved_thirteenth unit q r.id r.created_at ∷ runs else r ∷ rest
