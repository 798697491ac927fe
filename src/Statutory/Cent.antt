-- ===== src/Statutory/Cent.antt =====
-- core/statutory_reconciliation.py: `_cent`, the rounding of a decimal number to centavos. A decimal
-- is a sign, a coefficient and the number of its digits behind the point.
use native.Mathlib.Nat.{div-add-mod, mod-lt}
use Prim.Native.Nat.pow
use hidden_oasis_staff_payro.Common.{
  ℕ, ◌+◌, ◌≤◌, ◌<◌, ◌≡◌, zero, suc, arith, ◌*◌, ◌/◌, ◌%◌, ◌^◌, ◌-◌, Bool, if◌then◌else◌, ℤ, pos,
  negsuc, ◌==◌,
}

pub record Decimal : Type 0 where
  pub negative : Bool
  pub coefficient : ℕ
  pub scale : ℕ

-- `quantize(Decimal("0.01"), rounding=ROUND_HALF_UP)` of the magnitude.
unfoldable pub rounded : ℕ → ℕ → ℕ
rounded coefficient scale = (200 * coefficient + 10 ^ scale) / (2 * 10 ^ scale)

-- Minus zero is zero.
abbrev signed : Bool → ℕ → ℤ
signed negative n = if negative then (if n == 0 then pos 0 else negsuc (n - 1)) else pos n

unfoldable pub cent : Decimal → ℤ
unfolding rounded
cent d = signed d.negative (rounded d.coefficient d.scale)

half_up : (n p m r : ℕ) → m + r ≡ n + p → r < 2 * p → (n < m + p) × (m ≤ n + p)
half_up n p m r e lt = (omega arith, omega arith)

pow-positive : (s : ℕ) → 0 < 10 ^ s
pow-positive zero = omega arith
pow-positive (suc s) = omega (arith, pow-positive s, pow.suc 10 s)

-- The rounded number of centavos is within half a centavo of the decimal.
rounded-nearest :
    (c s : ℕ)
    → (200 * c < 2 * 10 ^ s * rounded c s + 10 ^ s) × (2 * 10 ^ s * rounded c s ≤ 200 * c + 10 ^ s)
unfolding rounded
rounded-nearest c s =
    let two_pos : 0 < 2 * 10 ^ s = omega (arith, pow-positive s) in
    half_up (200 * c) (10 ^ s) (2 * 10 ^ s * ((200 * c + 10 ^ s) / (2 * 10 ^ s)))
      ((200 * c + 10 ^ s) % (2 * 10 ^ s)) (div-add-mod (200 * c + 10 ^ s) (2 * 10 ^ s))
      (mod-lt (200 * c + 10 ^ s) two_pos)
