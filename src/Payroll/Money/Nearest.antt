-- ===== src/Payroll/Money/Nearest.antt =====
-- How far rounded amounts are from what they round.
use native.Mathlib.Nat.{div-add-mod, mod-lt}
use hidden_oasis_staff_payro.Common.{
  ℕ, zero, suc, ◌+◌, ◌*◌, ◌≤◌, ◌<◌, ◌≡◌, ◌⊎◌, refl, ap, inl, inr, ℤ, pos, negsuc, pos_part,
  neg_part, sub_ℕ, ◌+ℤ◌, ◌-ℤ◌, +ℤ_parts, -ℤ_parts, arith,
}
use hidden_oasis_staff_payro.Payroll.Money.{magnitude, half_up_cents, negated, money, in_units}

-- The centavos are within so many half centavos of the amount.
abbrev pub IsNear : ℕ → ℕ → ℤ → ℤ → Type 0
IsNear unit halves cents amount =
    (2 * (pos_part cents * unit + neg_part amount)
      ≤ 2 * (neg_part cents * unit + pos_part amount) + halves * unit)
    × (2 * (neg_part cents * unit + pos_part amount)
        ≤ 2 * (pos_part cents * unit + neg_part amount) + halves * unit)

half_up_cents-near :
    (unit n : ℕ)
    → 0 < unit
    → (2 * (half_up_cents unit n * unit) ≤ 2 * n + unit)
      × (2 * n ≤ 2 * (half_up_cents unit n * unit) + unit)
unfolding half_up_cents
half_up_cents-near unit n positive =
    let whole = div-add-mod (2 * n + unit) (2 * unit) in
    let two_units : 0 < 2 * unit = omega arith in
    let rest = mod-lt (2 * n + unit) two_units in (omega (arith, whole), omega (arith, whole, rest))

pub money-IsNear : (unit : ℕ) (a : ℤ) → 0 < unit → IsNear unit 1 (money unit a) a
unfolding money
money-IsNear unit (pos n) positive =
    let (low, high) = half_up_cents-near unit n positive in (omega arith, omega arith)
money-IsNear unit (negsuc n) positive = by_cents (half_up_cents unit (suc n)) near
  where
    near :
        (2 * (half_up_cents unit (suc n) * unit) ≤ 2 * suc n + unit)
        × (2 * suc n ≤ 2 * (half_up_cents unit (suc n) * unit) + unit)
    near = half_up_cents-near unit (suc n) positive

    by_cents :
        (c : ℕ)
        → (2 * (c * unit) ≤ 2 * suc n + unit) × (2 * suc n ≤ 2 * (c * unit) + unit)
        → IsNear unit 1 (negated c) (negsuc n)
    by_cents zero (low, high) = (omega arith, omega arith)
    by_cents (suc c) (low, high) = (omega arith, omega arith)

times : (unit a b : ℕ) → a ≡ b → a * unit ≡ b * unit
times unit a b e = ap (λ (x : ℕ). x * unit) e

pub add-IsNear :
    (unit j k : ℕ) (c d a b : ℤ)
    → IsNear unit j c a
    → IsNear unit k d b
    → IsNear unit (j + k) (c +ℤ d) (a +ℤ b)
add-IsNear unit j k c d a b (c1, c2) (d1, d2) =
    let cents =
      times unit (pos_part (c +ℤ d) + neg_part c + neg_part d)
        (neg_part (c +ℤ d) + pos_part c + pos_part d) (+ℤ_parts c d) in
    (omega (arith, cents, +ℤ_parts a b), omega (arith, cents, +ℤ_parts a b))

pub sub-IsNear :
    (unit j k : ℕ) (c d a b : ℤ)
    → IsNear unit j c a
    → IsNear unit k d b
    → IsNear unit (j + k) (c -ℤ d) (a -ℤ b)
sub-IsNear unit j k c d a b (c1, c2) (d1, d2) =
    let cents =
      times unit (pos_part (c -ℤ d) + neg_part c + pos_part d)
        (neg_part (c -ℤ d) + pos_part c + neg_part d) (-ℤ_parts c d) in
    (omega (arith, cents, -ℤ_parts a b), omega (arith, cents, -ℤ_parts a b))

sub_ℕ-parts : (a b : ℕ) → pos_part (sub_ℕ a b) + b ≡ neg_part (sub_ℕ a b) + a
sub_ℕ-parts a b = ground arith

pub in_units-IsNear : (unit : ℕ) (c : ℤ) → IsNear unit 0 c (in_units unit c)
unfolding in_units
in_units-IsNear unit c =
    let parts = sub_ℕ-parts (pos_part c * unit) (neg_part c * unit) in
    (omega (arith, parts), omega (arith, parts))

one_sided : (z : ℤ) → (pos_part z ≡ 0) ⊎ (neg_part z ≡ 0)
one_sided (pos n) = inr refl
one_sided (negsuc n) = inl refl

-- Two roundings of one amount differ by no more than their errors.
pub near-magnitude :
    (unit j k : ℕ) (c d a : ℤ)
    → IsNear unit j c a
    → IsNear unit k d a
    → 2 * (magnitude (c -ℤ d) * unit) ≤ (j + k) * unit
near-magnitude unit j k c d a (c1, c2) (d1, d2) =
    let cents =
      times unit (pos_part (c -ℤ d) + neg_part c + pos_part d)
        (neg_part (c -ℤ d) + pos_part c + neg_part d) (-ℤ_parts c d) in
    elim (one_sided (c -ℤ d)) [
      | inl below ↦
          let none_over = times unit (pos_part (c -ℤ d)) 0 below in omega (arith, cents, none_over)
      | inr above ↦
          let none_under = times unit (neg_part (c -ℤ d)) 0 above in
          omega (arith, cents, none_under)
    ]

times_mono : (unit a b : ℕ) → a ≤ b → a * unit ≤ b * unit
times_mono unit a b h = grind arith

pub within-IsNear :
    (unit m k : ℕ) (c d a : ℤ)
    → magnitude (c -ℤ d) ≤ m
    → IsNear unit k d a
    → IsNear unit (2 * m + k) c a
within-IsNear unit m k c d a within (d1, d2) =
    let cents =
      times unit (pos_part (c -ℤ d) + neg_part c + pos_part d)
        (neg_part (c -ℤ d) + pos_part c + neg_part d) (-ℤ_parts c d) in
    let over = times_mono unit (magnitude (c -ℤ d)) m within in
    (omega (arith, cents, over), omega (arith, cents, over))

-- Less than two units of error are no more than a centavo.
pub at_most_one : (unit m : ℕ) → 0 < unit → 2 * (m * unit) ≤ 3 * unit → m ≤ 1
at_most_one unit zero positive h = omega arith
at_most_one unit (suc zero) positive h = omega arith
at_most_one unit (suc (suc m)) positive h = omega arith

pub at_most_none : (unit m : ℕ) → 0 < unit → 2 * (m * unit) ≤ 1 * unit → m ≡ 0
at_most_none unit zero positive h = refl
at_most_none unit (suc m) positive h = omega arith
