-- ===== src/Statutory/Withholding.antt =====
-- core/payroll_engine.py: `compute_semi_monthly_withholding_tax`. Amounts are in centavos, and the
-- products are exact where the code multiplies floats.
pub mod Monotone
use hidden_oasis_staff_payro.Common.{ℕ, ◌+◌, ◌-◌, ◌*◌, ◌/◌, ltb, if◌then◌else◌, ℤ, pos_part}

-- Rounded to the centavo, half up; the rate is in percent.
unfoldable pub excess_tax : ℕ → ℕ → ℕ → ℕ
excess_tax floor rate taxable = ((taxable - floor) * rate + 50) / 100

unfoldable pub tax_of : ℕ → ℕ
unfolding excess_tax
tax_of taxable =
    if ltb 33333300 taxable
    then 9177070 + excess_tax 33333300 35 taxable
    else if ltb 8333300 taxable
    then 1677070 + excess_tax 8333300 30 taxable
    else if ltb 3333300 taxable
    then 427070 + excess_tax 3333300 25 taxable
    else if ltb 1666700 taxable
    then 93750 + excess_tax 1666700 20 taxable
    else if ltb 1041700 taxable
    then excess_tax 1041700 15 taxable
    else 0

-- `max(0.0, taxable_compensation)`
unfoldable pub compute_semi_monthly_withholding_tax : ℤ → ℕ
compute_semi_monthly_withholding_tax taxable = tax_of (pos_part taxable)
