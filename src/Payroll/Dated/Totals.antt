-- ===== src/Payroll/Dated/Totals.antt =====
-- How the months of a dated ledger add up, before and after a reconciliation to the gross pay.
use hidden_oasis_staff_payro.Common.{
  ◌≤◌, ◌≡◌, refl, ap, ◌∙◌, inl, inr, Bool, true, false, not, ◌&&◌, some, List, [], ◌∷◌, map, ℕ, ◌⊎◌,
  ltb, if◌then◌else◌, ℤ, pos, pos_part, neg_part, ◌+ℤ◌, ◌-ℤ◌, int_laws, eq_of_parts, -ℤ_parts,
  arith, Bool-cases, Option-cases,
}
use hidden_oasis_staff_payro.Calendar.Date.{Date, leb_date, first_of_month}
use hidden_oasis_staff_payro.Calendar.Segments.{Segment, same_date, Split, ok, err, stuck}
use hidden_oasis_staff_payro.Payroll.Money.{magnitude}
use hidden_oasis_staff_payro.Payroll.Dated.{
  DatedAmount, DatedEarningsLedger, checked, sum_dated, is_negligible, add_at, add_known, add,
  add_months, empty_month, by_segments, last_date, absorb, reconcile_totals,
}

add_to-sum : (d v s : ℤ) → (d +ℤ v) +ℤ s ≡ (d +ℤ s) +ℤ v
add_to-sum d v s = grind int_laws

add_later-sum : (d v s r : ℤ) → r ≡ s +ℤ v → d +ℤ r ≡ (d +ℤ s) +ℤ v
add_later-sum d v s r h = grind int_laws

sum-add_at :
    (day : Date) (v : ℤ) (l : List DatedAmount) → sum_dated (add_at day v l) ≡ sum_dated l +ℤ v
unfolding add_at sum_dated
sum-add_at day v [] = grind int_laws
sum-add_at day v (d ∷ l) = elim (Bool-cases (same_date d.key day)) [
  | inl here ↦ rw (here, if◌then◌else◌) (add_to-sum d.amount v (sum_dated l))
  | inr other ↦
      rw (other, if◌then◌else◌)
        (add_later-sum d.amount v (sum_dated l) (sum_dated (add_at day v l)) (sum-add_at day v l))
]

sum-of-some : (x r : List DatedAmount) (s : ℤ) → some x ≡ some r → sum_dated x ≡ s → sum_dated r ≡ s
sum-of-some x r s h p = cc (h, p)

through-sum : (t a l k r : ℤ) → k ≡ t +ℤ a → r ≡ k +ℤ l → r ≡ t +ℤ (a +ℤ l)
through-sum t a l k r h p = grind int_laws

plus_zero : (t : ℤ) → t ≡ t +ℤ pos 0
plus_zero t = grind int_laws

sum-add_known :
    (day : Date) (v : ℤ) (l r : List DatedAmount)
    → add_known day v l ≡ some r
    → sum_dated r ≡ sum_dated l +ℤ v
unfolding add_known sum_dated
sum-add_known day v [] r h = absurd (cc h)
sum-add_known day v (d ∷ l) r h = elim (Bool-cases (same_date d.key day)) [
  | inl here ↦
      sum-of-some (record d { amount = d.amount +ℤ v } ∷ l) r ((d.amount +ℤ sum_dated l) +ℤ v)
        (rw (here, add_known) at h) (add_to-sum d.amount v (sum_dated l))
  | inr other ↦ elim (Option-cases (add_known day v l)) [
    | inl e ↦ absurd (cc (rw (other, e, add_known) at h))
    | inr (k, e) ↦
        sum-of-some (d ∷ k) r ((d.amount +ℤ sum_dated l) +ℤ v) (rw (other, e, add_known) at h)
          (add_later-sum d.amount v (sum_dated l) (sum_dated k) (sum-add_known day v l k e))
  ]
]

sum-add_months :
    (l t r : List DatedAmount) → add_months l t ≡ some r → sum_dated r ≡ sum_dated t +ℤ sum_dated l
unfolding add_months sum_dated
sum-add_months [] t r h = sum-of-some t r (sum_dated t +ℤ pos 0) h (plus_zero (sum_dated t))
sum-add_months (d ∷ l) t r h = elim (Option-cases (add_known (first_of_month d.key) d.amount t)) [
  | inl e ↦ absurd (cc (rw (e, add_months) at h))
  | inr (k, e) ↦
      let first = sum-add_known (first_of_month d.key) d.amount t k e in
      let rest = sum-add_months l k r (rw (e, add_months) at h) in
      through-sum (sum_dated t) d.amount (sum_dated l) (sum_dated k) (sum_dated r) first rest
]

sum-empty : (segments : List Segment) → sum_dated (map empty_month segments) ≡ pos 0
unfolding sum_dated ◌+ℤ◌
sum-empty [] = refl
sum-empty (s ∷ segments) = rw (sum-empty segments) refl

zero_plus : (t : ℤ) → pos 0 +ℤ t ≡ t
zero_plus t = grind int_laws

pub sum-by_segments :
    (l : List DatedAmount) (split : Split) (totals : List DatedAmount)
    → by_segments l split ≡ checked totals
    → sum_dated totals ≡ sum_dated l
sum-by_segments l (ok segments) totals h =
    elim (Option-cases (add_months l (map empty_month segments))) [
      | inl e ↦ absurd (cc (rw e at h))
      | inr (r, e) ↦
          let added = sum-add_months l (map empty_month segments) r e in
          let same : sum_dated r ≡ sum_dated l =
            added ∙ ap (λ x. x +ℤ sum_dated l) (sum-empty segments) ∙ zero_plus (sum_dated l) in
          let out : checked r ≡ checked totals = rw e at h in cc (out, same)
    ]
sum-by_segments l (err e) totals h = absurd (cc h)
sum-by_segments l stuck totals h = absurd (cc h)

sum-absorb :
    (delta : ℤ) (l totals r : List DatedAmount)
    → absorb delta l totals ≡ checked r
    → sum_dated r ≡ sum_dated totals +ℤ delta
unfolding absorb
sum-absorb delta [] totals r h = absurd (cc h)
sum-absorb delta (d ∷ l) totals r h =
    elim (Option-cases (add_known (first_of_month (last_date d.key l)) delta totals)) [
      | inl e ↦ absurd (cc (rw (e, absorb) at h))
      | inr (k, e) ↦
          let out : checked k ≡ checked r = rw (e, absorb) at h in
          let added = sum-add_known (first_of_month (last_date d.key l)) delta totals k e in
          cc (out, added)
    ]

refilled : (g t : ℤ) → t +ℤ (g -ℤ t) ≡ g
refilled g t = grind int_laws

no_residual : (g t : ℤ) → ltb 0 (magnitude (g -ℤ t)) ≡ false → t ≡ g
no_residual g t h =
    let p : pos_part (g -ℤ t) ≡ 0 = ground (arith, h) in
    let n : neg_part (g -ℤ t) ≡ 0 = ground (arith, h) in
    eq_of_parts t g (omega (arith, -ℤ_parts g t, p, n))

pub reconciled-exact :
    (g : ℤ) (l totals r : List DatedAmount)
    → reconcile_totals g l totals ≡ checked r
    → (sum_dated r ≡ g) × (magnitude (g -ℤ sum_dated totals) ≤ 5)
unfolding reconcile_totals
reconciled-exact g l totals r h =
    let delta = g -ℤ sum_dated totals in
    elim (Bool-cases (ltb 5 (magnitude delta))) [
      | inl far ↦ absurd (cc (rw (far, reconcile_totals) at h))
      | inr near ↦ elim (Bool-cases (ltb 0 (magnitude delta))) [
        | inl residual ↦
            let out : absorb delta l totals ≡ checked r =
              rw (near, residual, reconcile_totals) at h in
            (sum-absorb delta l totals r out ∙ refilled g (sum_dated totals), ground (arith, near))
        | inr exact ↦
            let out : checked totals ≡ checked r = rw (near, exact, reconcile_totals) at h in
            let same = no_residual g (sum_dated totals) exact in
            (cc (out, same), ground (arith, near))
      ]
    ]

within_cutoff : (a b : Bool) → not (a && b) ≡ false → (a ≡ true) × (b ≡ true)
within_cutoff true true h = (refl, refl)
within_cutoff true false h = absurd (cc h)
within_cutoff false b h = absurd (cc h)

-- An amount that is added is of a date of the cutoff; it is negligible and left out, or the ledger
-- grows by just it.
add-sum :
    (unit : ℕ) (earned : Date) (amount : ℤ) (l l' : DatedEarningsLedger)
    → add unit earned amount l ≡ checked l'
    → (((is_negligible unit amount ≡ true) × (l ≡ l'))
        ⊎ ((is_negligible unit amount ≡ false)
            × (sum_dated l'.amounts ≡ sum_dated l.amounts +ℤ amount)))
      × (leb_date l.period_start earned ≡ true)
      × (leb_date earned l.period_end ≡ true)
unfolding add
add-sum unit earned amount l l' h =
    let within = leb_date l.period_start earned && leb_date earned l.period_end in
    elim (Bool-cases (not within)) [
      | inl outside ↦ absurd (cc (rw (outside, add) at h))
      | inr inside ↦
          let (low, high) =
            within_cutoff (leb_date l.period_start earned) (leb_date earned l.period_end) inside in
          elim (Bool-cases (is_negligible unit amount)) [
            | inl negligible ↦
                let out : checked l ≡ checked l' = rw (inside, negligible, add) at h in
                (inl (negligible, cc out), low, high)
            | inr some_amount ↦
                let out : checked (record l { amounts = add_at earned amount l.amounts })
                    ≡ checked l' =
                  rw (inside, some_amount, add) at h in
                let same = sum-add_at earned amount l.amounts in
                (inr (some_amount, cc (out, same)), low, high)
          ]
    ]
