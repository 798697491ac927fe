-- ===== src/Payroll/Dated/Reconciled.antt =====
-- A reconciled dated ledger: its months are the gross pay, and its amounts are near it.
use hidden_oasis_staff_payro.Common.{
  ◌≡◌, refl, sym, ap, ◌∙◌, inl, inr, some, List, [], ◌∷◌, map, length, ℕ, suc, subst, ◌<◌, ◌+◌, ltb,
  ℤ, ◌+ℤ◌, ◌-ℤ◌, arith, Bool-cases, Option-cases,
}
use hidden_oasis_staff_payro.Calendar.Date.{Date, first_of_month}
use hidden_oasis_staff_payro.Calendar.Segments.{same_date, calendar_month_segments}
use hidden_oasis_staff_payro.Payroll.Money.{magnitude, money}
use hidden_oasis_staff_payro.Payroll.Money.Nearest.{IsNear, money-IsNear, add-IsNear, within-IsNear}
use hidden_oasis_staff_payro.Payroll.Dated.{
  DatedAmount, DatedEarningsLedger, Checked, refused, checked, sum_dated, add_known, by_segments,
  rounded_month, gross_by_month, last_date, absorb, reconcile_totals, reconcile,
}
use hidden_oasis_staff_payro.Payroll.Dated.Totals.{sum-by_segments, reconciled-exact}

rounded-IsNear :
    (unit : ℕ) (l : List DatedAmount)
    → 0 < unit
    → IsNear unit (length l) (sum_dated (map (rounded_month unit) l)) (sum_dated l)
unfolding sum_dated
rounded-IsNear unit [] positive = (omega arith, omega arith)
rounded-IsNear unit (d ∷ l) positive =
    let first = money-IsNear unit d.amount positive in
    let rest = rounded-IsNear unit l positive in
    let both =
      add-IsNear unit 1 (length l) (money unit d.amount) (sum_dated (map (rounded_month unit) l))
        d.amount (sum_dated l) first rest in
    let count : 1 + length l ≡ suc (length l) = omega arith in
    subst
      (λ n.
        IsNear unit n (money unit d.amount +ℤ sum_dated (map (rounded_month unit) l))
          (d.amount +ℤ sum_dated l))
      count both

length-rounded : (unit : ℕ) (l : List DatedAmount) → length (map (rounded_month unit) l) ≡ length l
length-rounded unit [] = refl
length-rounded unit (d ∷ l) = ap (λ (n : ℕ). suc n) (length-rounded unit l)

months-IsNear :
    (unit : ℕ) (l : DatedEarningsLedger) (totals : List DatedAmount)
    → 0 < unit
    → gross_by_month unit l ≡ checked totals
    → IsNear unit (length totals) (sum_dated totals) (sum_dated l.amounts)
unfolding gross_by_month
months-IsNear unit l totals positive h =
    by_months (by_segments l.amounts (calendar_month_segments l.period_start l.period_end)) refl
  where
    by_months :
        (m : Checked (List DatedAmount))
        → by_segments l.amounts (calendar_month_segments l.period_start l.period_end) ≡ m
        → IsNear unit (length totals) (sum_dated totals) (sum_dated l.amounts)
    by_months (refused e) m = absurd (cc (rw (m, gross_by_month) at h))
    by_months (checked t) m =
        let out : checked (map (rounded_month unit) t) ≡ checked totals =
          rw (m, gross_by_month) at h in
        let to : map (rounded_month unit) t ≡ totals = cc out in
        let sums =
          sum-by_segments l.amounts (calendar_month_segments l.period_start l.period_end) t m in
        let near =
          subst (λ n. IsNear unit n (sum_dated (map (rounded_month unit) t)) (sum_dated t))
            (sym (length-rounded unit t)) (rounded-IsNear unit t positive) in
        subst (λ x. IsNear unit (length x) (sum_dated x) (sum_dated l.amounts)) to
          (subst
            (λ x.
              IsNear unit (length (map (rounded_month unit) t))
                (sum_dated (map (rounded_month unit) t)) x)
            sums near)

length-add_known :
    (day : Date) (v : ℤ) (l r : List DatedAmount) → add_known day v l ≡ some r → length r ≡ length l
unfolding add_known
length-add_known day v [] r h = absurd (cc h)
length-add_known day v (d ∷ l) r h = elim (Bool-cases (same_date d.key day)) [
  | inl here ↦
      let out : some (record d { amount = d.amount +ℤ v } ∷ l) ≡ some r =
        rw (here, add_known) at h in
      let to : record d { amount = d.amount +ℤ v } ∷ l ≡ r = cc out in sym (ap length to)
  | inr other ↦ elim (Option-cases (add_known day v l)) [
    | inl e ↦ absurd (cc (rw (other, e, add_known) at h))
    | inr (k, e) ↦
        let out : some (d ∷ k) ≡ some r = rw (other, e, add_known) at h in
        let to : d ∷ k ≡ r = cc out in
        sym (ap length to) ∙ ap (λ (n : ℕ). suc n) (length-add_known day v l k e)
  ]
]

length-absorb :
    (delta : ℤ) (l totals r : List DatedAmount)
    → absorb delta l totals ≡ checked r
    → length r ≡ length totals
unfolding absorb
length-absorb delta [] totals r h = absurd (cc h)
length-absorb delta (d ∷ l) totals r h =
    elim (Option-cases (add_known (first_of_month (last_date d.key l)) delta totals)) [
      | inl e ↦ absurd (cc (rw (e, absorb) at h))
      | inr (k, e) ↦
          let out : checked k ≡ checked r = rw (e, absorb) at h in
          let to : k ≡ r = cc out in
          let same = length-add_known (first_of_month (last_date d.key l)) delta totals k e in
          sym (ap length to) ∙ same
    ]

length-reconciled :
    (g : ℤ) (l totals r : List DatedAmount)
    → reconcile_totals g l totals ≡ checked r
    → length r ≡ length totals
unfolding reconcile_totals
length-reconciled g l totals r h =
    let delta = g -ℤ sum_dated totals in
    elim (Bool-cases (ltb 5 (magnitude delta))) [
      | inl far ↦ absurd (cc (rw (far, reconcile_totals) at h))
      | inr near ↦ elim (Bool-cases (ltb 0 (magnitude delta))) [
        | inl residual ↦ length-absorb delta l totals r (rw (near, residual, reconcile_totals) at h)
        | inr exact ↦
            let out : checked totals ≡ checked r = rw (near, exact, reconcile_totals) at h in
            let to : totals ≡ r = cc out in sym (ap length to)
      ]
    ]

-- Where a ledger reconciles with a gross pay, the months that result add up to the gross pay in whole
-- centavos exactly, and that is within five centavos and half a centavo for each month of the
-- unrounded amounts of the ledger.
pub reconcile-exact :
    (unit : ℕ) (gross_pay : ℤ) (l : DatedEarningsLedger) (totals : List DatedAmount)
    → 0 < unit
    → reconcile unit gross_pay l ≡ checked totals
    → (sum_dated totals ≡ money unit gross_pay)
      × IsNear unit (10 + length totals) (money unit gross_pay) (sum_dated l.amounts)
unfolding reconcile
reconcile-exact unit gross_pay l totals positive h = by_months (gross_by_month unit l) refl
  where
    by_months :
        (m : Checked (List DatedAmount))
        → gross_by_month unit l ≡ m
        → (sum_dated totals ≡ money unit gross_pay)
          × IsNear unit (10 + length totals) (money unit gross_pay) (sum_dated l.amounts)
    by_months (refused e) m = absurd (cc (rw (m, reconcile) at h))
    by_months (checked t) m =
        let target = money unit gross_pay in
        let out : reconcile_totals target l.amounts t ≡ checked totals = rw (m, reconcile) at h in
        let (exact, near) = reconciled-exact target l.amounts t totals out in
        let months = months-IsNear unit l t positive m in
        let bound =
          within-IsNear unit 5 (length t) target (sum_dated t) (sum_dated l.amounts) near months in
        (
          exact,
          subst (λ n. IsNear unit (10 + n) target (sum_dated l.amounts))
              (sym (length-reconciled target l.amounts t totals out)) bound,
        )
