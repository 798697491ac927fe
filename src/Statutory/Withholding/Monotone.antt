-- ===== src/Statutory/Withholding/Monotone.antt =====
-- The tax and what is left after it both grow with the taxable compensation.
use hidden_oasis_staff_payro.Common.{
  ℕ, zero, suc, ◌+◌, ◌-◌, ◌≤◌, ◌≡◌, refl, subst, arith, ℤ, ◌≤ℤ◌, pos_part,
}
use hidden_oasis_staff_payro.Statutory.Withholding.{
  excess_tax, tax_of, compute_semi_monthly_withholding_tax,
}

tax_step : (a : ℕ) → (tax_of a ≤ tax_of (a + 1)) × (tax_of (a + 1) ≤ tax_of a + 1)
unfolding tax_of excess_tax
tax_step a = (ground arith, ground arith)

tax_steps : (a d : ℕ) → (tax_of a ≤ tax_of (a + d)) × (tax_of (a + d) ≤ tax_of a + d)
tax_steps a zero = let same : a + 0 ≡ a = omega arith in rw same (omega arith, omega arith)
tax_steps a (suc d) =
    let (low, high) = tax_steps a d in
    let (below, above) = tax_step (a + d) in
    let next : a + suc d ≡ a + d + 1 = omega arith in rw next (omega arith, omega arith)

tax_zero : tax_of 0 ≡ 0
unfolding tax_of excess_tax
tax_zero = refl

tax_ordered : (a b : ℕ) → a ≤ b → (tax_of a ≤ tax_of b) × (tax_of b + a ≤ tax_of a + b)
tax_ordered a b h =
    let (low, high) = tax_steps a (b - a) in
    let whole : a + (b - a) ≡ b = omega arith in
    (
      subst (λ c. tax_of a ≤ tax_of c) whole low,
      omega (arith, subst (λ c. tax_of c ≤ tax_of a + (b - a)) whole high),
    )

-- A higher taxable compensation has no lower tax, and leaves no less after the tax; and the tax is
-- never more than the taxable compensation, or than nothing where that is negative.
pub withholding-monotone :
    (a b : ℤ)
    → a ≤ℤ b
    → (compute_semi_monthly_withholding_tax a ≤ compute_semi_monthly_withholding_tax b)
      × (compute_semi_monthly_withholding_tax b + pos_part a
          ≤ compute_semi_monthly_withholding_tax a + pos_part b)
      × (compute_semi_monthly_withholding_tax b ≤ pos_part b)
unfolding compute_semi_monthly_withholding_tax
withholding-monotone a b h =
    let order : pos_part a ≤ pos_part b = ground arith in
    let (low, left) = tax_ordered (pos_part a) (pos_part b) order in
    let (_, all) = tax_ordered 0 (pos_part b) (omega arith) in (low, left, omega (arith, tax_zero))
