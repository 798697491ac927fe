-- ===== src/Payroll/Queue.antt =====
-- core/payroll_engine.py: `create_accounting_queue_for_payroll`, the journal lines of a paid run. The
-- description of a line is left out; the cash account is the one of the settings.
pub mod Payable
use hidden_oasis_staff_payro.Common.{
  ℕ, Bool, true, false, ◌&&◌, Option, none, some, List, [], ◌∷◌, ◌++◌, map, select, some_row, ◌==◌,
  if◌then◌else◌, ℤ, pos, ◌+ℤ◌, ltb_ℤ, Text, codes, eq_text, normalized,
}
use hidden_oasis_staff_payro.Payroll.Store.{Store, Run, Item, find_run}

pub data Account : Type 0 where
  salaries_expense salaries_payable sss_payable philhealth_payable : Account
  pagibig_payable withholding_payable contributions_expense : Account
  advance_receivable payroll_cash : Account

pub data SourceType : Type 0 where
  payroll_run thirteenth_month : SourceType

pub data QueueStatus : Type 0 where
  queued_review queue_reversed queue_exported : QueueStatus

pub record Line : Type 0 where
  pub debit_account : Account
  pub credit_account : Account
  pub amount : ℤ

pub record Entry : Type 0 where
  pub source_type : SourceType
  pub source_id : ℕ
  pub entry_date : Text
  pub line : Line
  pub status : QueueStatus

abbrev pub is_entry_of : ℕ → Entry → Bool
is_entry_of run_id e = elim e.source_type [
  | payroll_run ↦ e.source_id == run_id
  | thirteenth_month ↦ false
]

-- `str(run.get("revision_treatment") or "").strip().lower() == "adjust_paid"`
unfoldable pub adjusts_paid : Run → Bool
adjusts_paid run = elim run.revision_treatment [
  | none ↦ false
  | some t ↦ eq_text (normalized t) (codes "adjust_paid")
]

-- The sum of a column over the items.
unfoldable pub total : (Item → ℤ) → List Item → ℤ
total f [] = pos 0
total f (item ∷ items) = f item +ℤ total f items

abbrev line_of : Account → Account → ℤ → Line
line_of debit credit amount = record {
  debit_account = debit;
  credit_account = credit;
  amount = amount;
}

-- The lines of the items of a run, those of no amount included.
unfoldable pub lines : List Item → List Line
lines items =
    line_of salaries_expense salaries_payable (total (λ i. i.gross_pay) items)
    ∷ line_of salaries_payable sss_payable (total (λ i. i.sss_ee) items)
    ∷ line_of salaries_payable philhealth_payable (total (λ i. i.philhealth_ee) items)
    ∷ line_of salaries_payable pagibig_payable (total (λ i. i.pagibig_ee) items)
    ∷ line_of salaries_payable withholding_payable (total (λ i. i.tax) items)
    ∷ line_of contributions_expense sss_payable
        (total (λ i. i.sss_er) items +ℤ total (λ i. i.sss_ec) items)
    ∷ line_of contributions_expense philhealth_payable (total (λ i. i.philhealth_er) items)
    ∷ line_of contributions_expense pagibig_payable (total (λ i. i.pagibig_er) items)
    ∷ line_of salaries_payable advance_receivable (total (λ i. i.cash_advance_deduction) items)
    ∷ line_of salaries_payable payroll_cash (total (λ i. i.net_pay) items)
    ∷ []

abbrev pub is_posted : Line → Bool
is_posted line = ltb_ℤ (pos 0) line.amount

-- The lines that are inserted.
unfoldable pub posted_lines : List Item → List Line
unfolding lines total
posted_lines items = select is_posted (lines items)

unfoldable pub entry_of : Run → Line → Entry
entry_of run line = record {
  source_type = payroll_run;
  source_id = run.id;
  entry_date = run.payout_date;
  line = line;
  status = queued_review;
}

abbrev pub is_in_run : ℕ → Item → Bool
is_in_run run_id item = item.payroll_run_id == run_id

unfoldable pub create_accounting_queue_for_payroll : ℕ → Store → List Entry → List Entry
create_accounting_queue_for_payroll run_id s queue =
    if some_row (is_entry_of run_id) queue then queue else elim (find_run run_id s.runs) [
      | none ↦ queue
      | some run ↦
          if adjusts_paid run
          then queue
          else queue ++ map (entry_of run) (posted_lines (select (is_in_run run_id) s.items))
    ]
