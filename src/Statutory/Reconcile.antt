-- ===== src/Statutory/Reconcile.antt =====
-- core/statutory_reconciliation.py: `reconcile_months`, the balance of one government program
-- carried over its contribution months.
pub mod Balance
use hidden_oasis_staff_payro.Common.{
  ℕ, ◌+◌, ◌-◌, ◌*◌, Bool, true, false, not, ◌&&◌, ◌||◌, List, [], ◌∷◌, leb, ◌==◌, if◌then◌else◌, ℤ,
  pos, ◌+ℤ◌, ◌-ℤ◌, ltb_ℤ, Text, ltb_text,
}
use hidden_oasis_staff_payro.Statutory.Cent.{Decimal, cent}

pub record ContributionMonth : Type 0 where
  pub month : Text
  pub employee_due : Decimal
  pub employer_due : Decimal
  pub remitted : Decimal

pub record ReconciledMonth : Type 0 where
  pub month : Text
  pub employee_due : ℤ
  pub employer_due : ℤ
  pub total_due : ℤ
  pub remitted : ℤ
  pub opening_balance : ℤ
  pub closing_balance : ℤ

-- The list, or one of the three `ValueError`s.
pub data Reconciled : Type 0 where
  reconciled : List ReconciledMonth → Reconciled
  malformed_month unordered_months negative_amount : Reconciled

abbrev is_digit : ℕ → Bool
is_digit c = leb b'0' c && leb c b'9'

abbrev two_digits : ℕ → ℕ → ℕ
two_digits a b = 10 * (a - b'0') + (b - b'0')

-- `YYYY-MM`
unfoldable pub is_month : Text → Bool
is_month (a ∷ b ∷ c ∷ d ∷ dash ∷ m ∷ n ∷ []) =
    (dash == b'-')
    && is_digit a
    && is_digit b
    && is_digit c
    && is_digit d
    && is_digit m
    && is_digit n
    && leb 1 (two_digits m n)
    && leb (two_digits m n) 12
is_month _ = false

-- `min(employee, employer, remitted) < 0`
unfoldable pub any_negative : ContributionMonth → Bool
unfolding cent
any_negative m =
    ltb_ℤ (cent m.employee_due) (pos 0)
    || ltb_ℤ (cent m.employer_due) (pos 0)
    || ltb_ℤ (cent m.remitted) (pos 0)

unfoldable pub closing : ℤ → ContributionMonth → ℤ
closing balance m = balance +ℤ (cent m.employee_due +ℤ cent m.employer_due) -ℤ cent m.remitted

unfoldable pub reconciled_month : ℤ → ContributionMonth → ReconciledMonth
unfolding closing
reconciled_month balance m = record {
  month = m.month;
  employee_due = cent m.employee_due;
  employer_due = cent m.employer_due;
  total_due = cent m.employee_due +ℤ cent m.employer_due;
  remitted = cent m.remitted;
  opening_balance = balance;
  closing_balance = closing balance m;
}

abbrev pub add_month : ReconciledMonth → Reconciled → Reconciled
add_month row (reconciled rows) = reconciled (row ∷ rows)
add_month row error = error

-- The loop, from a balance and the month before.
unfoldable pub reconcile_from : ℤ → Text → List ContributionMonth → Reconciled
reconcile_from balance previous [] = reconciled []
reconcile_from balance previous (m ∷ months) =
    let rest = reconcile_from (closing balance m) m.month months in
    if not (is_month m.month)
    then malformed_month
    else if not (ltb_text previous m.month)
    then unordered_months
    else if any_negative m
    then negative_amount
    else add_month (reconciled_month balance m) rest

unfoldable pub reconcile_months : List ContributionMonth → Decimal → Reconciled
reconcile_months months opening = reconcile_from (cent opening) [] months
