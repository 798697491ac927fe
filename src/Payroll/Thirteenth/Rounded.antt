-- ===== src/Payroll/Thirteenth/Rounded.antt =====
-- The lines of a 13th month run beside its net pay: the parts and the sum are rounded separately.
use hidden_oasis_staff_payro.Common.{
  ℕ, ◌<◌, ◌≤◌, ◌≡◌, refl, sym, ◌∙◌, some, arith, ℤ, ◌+ℤ◌, ◌-ℤ◌, -ℤ_parts, eq_of_parts,
}
use hidden_oasis_staff_payro.Payroll.Money.{magnitude, money, in_units}
use hidden_oasis_staff_payro.Payroll.Money.Nearest.{
  IsNear, money-IsNear, add-IsNear, sub-IsNear, in_units-IsNear, near-magnitude, at_most_one,
  at_most_none,
}
use hidden_oasis_staff_payro.Payroll.Thirteenth.{
  ThirteenthRun, Book, SaveRequest, base_13th, net_13th, find_thirteenth, saved_thirteenth,
}
use hidden_oasis_staff_payro.Payroll.Thirteenth.Save.{save_13th_month_run}
use hidden_oasis_staff_payro.Payroll.Thirteenth.Saved.{lines_net, shown_net, saved-lines_net}

-- The lines and the net pay are each within their rounding errors of the sum that is not rounded.
shown-net_13th :
    (unit : ℕ) (q : SaveRequest) → 0 < unit → magnitude (shown_net unit q -ℤ net_13th unit q) ≤ 1
unfolding shown_net net_13th
shown-net_13th unit q positive =
    let base = base_13th unit q in
    let exact = in_units unit base in
    let adjusted = exact +ℤ q.adjustment_amount in
    let a = money unit q.adjustment_amount in
    let d = money unit q.deductions in
    let sum =
      add-IsNear unit 0 1 base a exact q.adjustment_amount (in_units-IsNear unit base)
        (money-IsNear unit q.adjustment_amount positive) in
    let shown =
      sub-IsNear unit 1 1 (base +ℤ a) d adjusted q.deductions sum
        (money-IsNear unit q.deductions positive) in
    let net = money-IsNear unit (adjusted -ℤ q.deductions) positive in
    at_most_one unit (magnitude (((base +ℤ a) -ℤ d) -ℤ money unit (adjusted -ℤ q.deductions)))
      positive
      (near-magnitude unit 2 1 ((base +ℤ a) -ℤ d) (money unit (adjusted -ℤ q.deductions))
        (adjusted -ℤ q.deductions) shown net)

-- Rounding gives back an amount of whole centavos that is exactly near.
pub money-exact : (unit : ℕ) (c a : ℤ) → 0 < unit → IsNear unit 0 c a → money unit a ≡ c
money-exact unit c a positive near =
    let far = near-magnitude unit 1 0 (money unit a) c a (money-IsNear unit a positive) near in
    let none = at_most_none unit (magnitude (money unit a -ℤ c)) positive far in
    eq_of_parts (money unit a) c (omega (arith, -ℤ_parts (money unit a) c, none))

whole-net :
    (unit : ℕ) (q : SaveRequest) (a d : ℤ)
    → 0 < unit
    → q.adjustment_amount ≡ in_units unit a
    → q.deductions ≡ in_units unit d
    → (shown_net unit q ≡ (base_13th unit q +ℤ a) -ℤ d)
      × (net_13th unit q ≡ (base_13th unit q +ℤ a) -ℤ d)
unfolding shown_net net_13th
whole-net unit q a d positive adjustment deductions =
    let base = base_13th unit q in
    let money_a = money-exact unit a (in_units unit a) positive (in_units-IsNear unit a) in
    let money_d = money-exact unit d (in_units unit d) positive (in_units-IsNear unit d) in
    let sum =
      add-IsNear unit 0 0 base a (in_units unit base) (in_units unit a) (in_units-IsNear unit base)
        (in_units-IsNear unit a) in
    let near =
      sub-IsNear unit 0 0 (base +ℤ a) d (in_units unit base +ℤ in_units unit a) (in_units unit d)
        sum (in_units-IsNear unit d) in
    let net =
      money-exact unit ((base +ℤ a) -ℤ d)
        ((in_units unit base +ℤ in_units unit a) -ℤ in_units unit d) positive near in
    (rw (adjustment, deductions) (rw (money_a, money_d) refl), rw (adjustment, deductions) net)

-- A save always returns the id of a run: the row of the employee, year and label has the rounded net
-- pay of the request, and the lines of the run, whatever they were before, add up to it within a
-- centavo. The lines are rounded one by one, so that the centavo may be off.
pub save_13th_month_run-net :
    (unit : ℕ) (q : SaveRequest) (b : Book)
    → 0 < unit
    → (after : Book) × (id : ℕ) × (row : ThirteenthRun) × (save_13th_month_run unit q b
        ≡ some (after, id))
      × (find_thirteenth q after.runs ≡ some row)
      × (row.id ≡ id)
      × (row.net_13th_pay ≡ net_13th unit q)
      × (magnitude (lines_net id after.lines -ℤ row.net_13th_pay) ≤ 1)
unfolding saved_thirteenth
save_13th_month_run-net unit q b positive =
    let (after, id, t, saved, found, lines) = saved-lines_net unit q b in
    (
      after,
      id,
      saved_thirteenth unit q id t,
      saved,
      found,
      refl,
      refl,
      rw lines (shown-net_13th unit q positive),
    )

-- Where the adjustment and the deductions are whole centavos, the net pay is the rounded base with the
-- adjustment less the deductions, and the lines of the run add up to it exactly.
pub save_13th_month_run-whole :
    (unit : ℕ) (q : SaveRequest) (b : Book) (a d : ℤ)
    → 0 < unit
    → q.adjustment_amount ≡ in_units unit a
    → q.deductions ≡ in_units unit d
    → (after : Book) × (id : ℕ) × (row : ThirteenthRun) × (save_13th_month_run unit q b
        ≡ some (after, id))
      × (find_thirteenth q after.runs ≡ some row)
      × (row.net_13th_pay ≡ (row.base_13th_amount +ℤ a) -ℤ d)
      × (lines_net id after.lines ≡ row.net_13th_pay)
unfolding saved_thirteenth
save_13th_month_run-whole unit q b a d positive adjustment deductions =
    let (after, id, t, saved, found, lines) = saved-lines_net unit q b in
    let (shown, net) = whole-net unit q a d positive adjustment deductions in
    (after, id, saved_thirteenth unit q id t, saved, found, net, lines ∙ (shown ∙ sym net))
