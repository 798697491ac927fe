-- ===== src/Payroll/Money.antt =====
-- core/money.py: `money`, the rounding to centavos. An amount that is not rounded is a number of equal
-- parts of a centavo, `unit` of them to the centavo.
pub mod Nearest
use hidden_oasis_staff_payro.Common.{
  ℕ, zero, suc, ◌+◌, ◌*◌, ◌/◌, ℤ, pos, negsuc, pos_part, neg_part, sub_ℕ,
}

-- `abs`
abbrev pub magnitude : ℤ → ℕ
magnitude a = pos_part a + neg_part a

-- `quantize(CENTAVO, rounding=ROUND_HALF_UP)` of a magnitude.
unfoldable pub half_up_cents : ℕ → ℕ → ℕ
half_up_cents unit n = (2 * n + unit) / (2 * unit)

abbrev pub negated : ℕ → ℤ
negated zero = pos 0
negated (suc n) = negsuc n

-- Half a centavo is rounded away from zero.
unfoldable pub money : ℕ → ℤ → ℤ
unfolding half_up_cents
money unit (pos n) = pos (half_up_cents unit n)
money unit (negsuc n) = negated (half_up_cents unit (suc n))

-- A rounded amount in parts of a centavo.
unfoldable pub in_units : ℕ → ℤ → ℤ
in_units unit cents = sub_ℕ (pos_part cents * unit) (neg_part cents * unit)
