-- ===== src/Statutory/Reconcile/Balance.antt =====
-- The balance of a reconciled ledger, and which ledgers are reconciled.
use hidden_oasis_staff_payro.Common.{
  ◌≡◌, ◌↔◌, true, false, refl, ap, sym, map, ◌∙◌, List, [], ◌∷◌, arith, ℤ, pos, ◌+ℤ◌, ◌-ℤ◌,
  int_laws, Text, ltb_text,
}
use hidden_oasis_staff_payro.Statutory.Cent.{Decimal, cent}
use hidden_oasis_staff_payro.Statutory.Reconcile.{
  ContributionMonth, ReconciledMonth, Reconciled, reconciled, is_month, any_negative, closing,
  malformed_month, unordered_months, negative_amount, reconciled_month, add_month, reconcile_from,
  reconcile_months,
}

unfoldable pub sum_ℤ : (ContributionMonth → ℤ) → List ContributionMonth → ℤ
sum_ℤ f [] = pos 0
sum_ℤ f (m ∷ months) = f m +ℤ sum_ℤ f months

abbrev pub due : ContributionMonth → ℤ
due m = cent m.employee_due +ℤ cent m.employer_due

abbrev pub remittance : ContributionMonth → ℤ
remittance m = cent m.remitted

-- The balance that the last of the rows closes with.
unfoldable pub last_balance : ℤ → List ReconciledMonth → ℤ
last_balance balance [] = balance
last_balance balance (row ∷ rows) = last_balance row.closing_balance rows

add-swap : (b d p x y : ℤ) → (b +ℤ d -ℤ p) +ℤ x -ℤ y ≡ b +ℤ (d +ℤ x) -ℤ (p +ℤ y)
add-swap b d p x y = grind int_laws

add_zero : (b : ℤ) → b +ℤ pos 0 -ℤ pos 0 ≡ b
add_zero b = grind int_laws

add_month-cases :
    (row : ReconciledMonth) (r : Reconciled) (rows : List ReconciledMonth)
    → add_month row r ≡ reconciled rows
    → (rest : List ReconciledMonth) × (r ≡ reconciled rest) × (rows ≡ row ∷ rest)
add_month-cases row (reconciled rest) rows h = (rest, refl, cc)
add_month-cases row malformed_month rows h = cc
add_month-cases row unordered_months rows h = cc
add_month-cases row negative_amount rows h = cc

-- A month that the loop accepts.
abbrev pub IsAccepted : Text → ContributionMonth → Type 0
IsAccepted previous m =
    (is_month m.month ≡ true) × (ltb_text previous m.month ≡ true) × (any_negative m ≡ false)

reconcile-head :
    (b : ℤ) (previous : Text) (m : ContributionMonth) (months : List ContributionMonth)
    (rows : List ReconciledMonth)
    → reconcile_from b previous (m ∷ months) ≡ reconciled rows
    → IsAccepted previous m
      × (add_month (reconciled_month b m) (reconcile_from (closing b m) m.month months)
          ≡ reconciled rows)
unfolding reconcile_from
reconcile-head b previous m months rows h =
    ((ground arith, ground arith, ground arith), ground arith)

empty_rows : (rows : List ReconciledMonth) → reconciled [] ≡ reconciled rows → rows ≡ []
empty_rows rows h = cc

from-balance :
    (b : ℤ) (previous : Text) (months : List ContributionMonth) (rows : List ReconciledMonth)
    → reconcile_from b previous months ≡ reconciled rows
    → last_balance b rows ≡ b +ℤ sum_ℤ due months -ℤ sum_ℤ remittance months
unfolding reconcile_from last_balance sum_ℤ closing reconciled_month
from-balance b previous [] rows h = rw (empty_rows rows h) (sym (add_zero b))
from-balance b previous (m ∷ months) rows h =
    let (ok, added) = reconcile-head b previous m months rows h in
    let (rest, e, shape) =
      add_month-cases (reconciled_month b m) (reconcile_from (closing b m) m.month months) rows
        added in
    let tail = from-balance (closing b m) m.month months rest e in
    rw shape (tail ∙ add-swap b (due m) (remittance m) (sum_ℤ due months) (sum_ℤ remittance months))

-- A reconciled ledger closes with its opening balance, plus everything that was due over its
-- months, less everything that was remitted.
pub reconcile-balance :
    (months : List ContributionMonth) (opening : Decimal) (rows : List ReconciledMonth)
    → reconcile_months months opening ≡ reconciled rows
    → last_balance (cent opening) rows ≡ cent opening +ℤ sum_ℤ due months -ℤ sum_ℤ remittance months
unfolding reconcile_months
reconcile-balance months opening rows h = from-balance (cent opening) [] months rows h

-- Every month is accepted after the one before it.
unfoldable pub IsLedger : Text → List ContributionMonth → Type 0
IsLedger previous [] = Unit
IsLedger previous (m ∷ months) = IsAccepted previous m × IsLedger m.month months

-- There is a row for every month.
abbrev pub IsReconciled : List ContributionMonth → Reconciled → Type 0
IsReconciled months r =
    (rows : List ReconciledMonth) × (r ≡ reconciled rows)
    × (map (λ row. row.month) rows ≡ map (λ m. m.month) months)

from-accepts :
    (b : ℤ) (previous : Text) (months : List ContributionMonth)
    → IsLedger previous months
    → IsReconciled months (reconcile_from b previous months)
unfolding reconcile_from IsLedger reconciled_month
from-accepts b previous [] ok = ([], refl, refl)
from-accepts b previous (m ∷ months) ((valid, ordered, amounts), later) =
    let (rows, e, names) = from-accepts (closing b m) m.month months later in
    (
      reconciled_month b m ∷ rows,
      rw (valid, ordered, amounts, e) refl,
      ap (λ names. m.month ∷ names) names,
    )

from-IsLedger :
    (b : ℤ) (previous : Text) (months : List ContributionMonth) (rows : List ReconciledMonth)
    → reconcile_from b previous months ≡ reconciled rows
    → IsLedger previous months
unfolding IsLedger
from-IsLedger b previous [] rows h = tt
from-IsLedger b previous (m ∷ months) rows h =
    let (ok, added) = reconcile-head b previous m months rows h in
    let (rest, e, shape) =
      add_month-cases (reconciled_month b m) (reconcile_from (closing b m) m.month months) rows
        added in
    (ok, from-IsLedger (closing b m) m.month months rest e)

-- A ledger is reconciled, with one row for every month and in their order, exactly when every month
-- is well formed, later than the month before, and has no negative amount.
pub reconcile_iff :
    (months : List ContributionMonth) (opening : Decimal)
    → IsReconciled months (reconcile_months months opening) ↔ IsLedger [] months
unfolding reconcile_months
reconcile_iff months opening = (
  (λ r. from-IsLedger (cent opening) [] months r.0 r.1),
  (λ ok. from-accepts (cent opening) [] months ok),
)
