-- ===== src/Calendar/Cutoff/Partition.antt =====
-- The cutoffs partition the days: each day is in the one that the code returns for it, and in no
-- other.
use hidden_oasis_staff_payro.Common.{
  ℕ, ◌+◌, ◌-◌, ◌≤◌, ◌<◌, ◌≡◌, ◌⊎◌, refl, ap, inl, inr, Bool, true, false, leb, ◌==◌, ◌&&◌, ◌||◌,
  arith, ltb, Bool-cases,
}
use hidden_oasis_staff_payro.Calendar.Date.{
  Date, IsDate, date, days_in_month, leb_date, next_day, previous_day,
}
use hidden_oasis_staff_payro.Calendar.Order.{days_in_month_bounds}
use hidden_oasis_staff_payro.Calendar.Cutoff.{
  CutoffResult, cutoff, bad_half, bad_month, overflow, cutoff_for_month, cutoff_containing,
}

-- The day lies in the cutoff, both ends included.
abbrev pub holds : Date → CutoffResult → Bool
holds d (cutoff c) = leb_date c.opens d && leb_date d c.closes
holds d bad_half = false
holds d bad_month = false
holds d overflow = false

-- The days whose cutoff would open before the year 1 or belong to the year 10000.
abbrev pub is_edge : Date → Bool
is_edge d =
    ((d.year == 1) && ((d.month == 1) && leb d.day 14))
    || ((d.year == 9999) && ((d.month == 12) && (d.day == 31)))

previous_day_first :
    (y m : ℕ) → 1 ≤ m → previous_day (date y (m + 1) 1) ≡ date y m (days_in_month y m)
unfolding previous_day
previous_day_first y m h =
    let e : m + 1 - 1 ≡ m = omega arith in ground (arith, ap (days_in_month y) e)

days_in_december : (y : ℕ) → days_in_month y 12 ≡ 31
unfolding days_in_month
days_in_december y = refl

-- From the last day of a month, a step forward and back returns to it.
previous_day-next :
    (d : Date)
    → IsDate d
    → d.day ≡ days_in_month d.year d.month
    → previous_day (date (next_day d).year (next_day d).month 1) ≡ d
unfolding next_day
previous_day-next d v h = elim (Bool-cases (ltb d.month 12)) [
  | inl e ↦ ground (arith, previous_day_first d.year d.month v.month_pos)
  | inr e ↦
      let december : d.month ≡ 12 = ground arith in
      unfold previous_day in
      ground (arith, days_in_december d.year, ap (days_in_month d.year) december)
]

module _ (d : Date) (v : IsDate d) where
  first_half_holds :
      d.day ≤ 14 → is_edge d ≡ false → holds d (cutoff_for_month d.year d.month 1) ≡ true
  unfolding cutoff_for_month leb_date previous_day
  first_half_holds h inner = ground (arith, days_in_month_bounds d.year d.month)

  second_half_holds :
      14 < d.day
      → d.day < days_in_month d.year d.month
      → holds d (cutoff_for_month d.year d.month 2) ≡ true
  unfolding cutoff_for_month leb_date
  second_half_holds h l = ground (arith, days_in_month_bounds d.year d.month)

  last_day_holds :
      is_edge d ≡ false
      → d.day ≡ days_in_month d.year d.month
      → holds d (cutoff_for_month (next_day d).year (next_day d).month 1) ≡ true
  unfolding cutoff_for_month leb_date next_day
  last_day_holds inner l =
      ground (arith, days_in_month_bounds d.year d.month, previous_day-next d v l)

next_day-bound :
    (d : Date)
    → IsDate d
    → is_edge d ≡ false
    → d.day ≡ days_in_month d.year d.month
    → (1 ≤ (next_day d).year) × ((next_day d).year ≤ 9999)
unfolding next_day
next_day-bound d v inner l =
    (ground arith, ground (arith, days_in_december d.year, ap (days_in_month d.year)))

cutoff_containing-holds :
    (d : Date) → IsDate d → is_edge d ≡ false → holds d (cutoff_containing d) ≡ true
unfolding cutoff_containing
cutoff_containing-holds d v inner = ground (
  arith,
  first_half_holds d v,
  second_half_holds d v,
  last_day_holds d v,
  next_day-bound d v inner,
  days_in_month_bounds d.year d.month,
)

first_days-overflow : (n : ℕ) → n ≤ 14 → cutoff_containing (date 1 1 n) ≡ overflow
unfolding cutoff_containing cutoff_for_month previous_day days_in_month
first_days-overflow n h = ground arith

last_day-overflow : cutoff_containing (date 9999 12 31) ≡ overflow
unfolding cutoff_containing next_day days_in_month
last_day-overflow = refl

cutoff_containing-overflow : (d : Date) → is_edge d ≡ true → cutoff_containing d ≡ overflow
cutoff_containing-overflow d edge =
    let split : ((d.year ≡ 1) × (d.month ≡ 1) × (d.day ≤ 14))
        ⊎ ((d.year ≡ 9999) × (d.month ≡ 12) × (d.day ≡ 31)) =
      ground arith in
    elim split [
      | inl (y, m, n) ↦ ground (arith, first_days-overflow d.day n)
      | inr (y, m, n) ↦ ground (arith, last_day-overflow)
    ]

module _ (d : Date) (v : IsDate d) (y m : ℕ) (w : IsDate (date y m 1)) where
  in_second_half :
      holds d (cutoff_for_month y m 2) ≡ true
      → (d.year ≡ y) × (d.month ≡ m) × (14 < d.day) × (d.day < days_in_month d.year d.month)
  unfolding cutoff_for_month leb_date
  in_second_half h =
      let same : (d.year ≡ y) × (d.month ≡ m) × (14 < d.day) × (d.day ≤ days_in_month y m - 1) =
        ground arith in
      let e = same.0 in
      let f = same.1 in (e, f, same.2, rw (e, f) (omega (arith, same.3, days_in_month_bounds y m)))

  -- The day that the first half carries forward from the month before.
  is_carried :
      leb_date (previous_day (date y m 1)) d ≡ true
      → leb_date (date y m 1) d ≡ false
      → (d.day ≡ days_in_month d.year d.month) × (next_day d ≡ date y m 1)
  is_carried from before = elim (Bool-cases (ltb 1 m)) [
    | inl e ↦
        let same : (d.year ≡ y) × (d.month ≡ m - 1) × (days_in_month y (m - 1) ≤ d.day) =
          unfold previous_day leb_date in ground (arith, days_in_month_bounds d.year d.month) in
        let full : d.day ≡ days_in_month d.year d.month = ground (
          arith,
          same,
          ap (days_in_month y) same.1,
          ap (λ (x : ℕ). days_in_month x d.month) same.0,
        ) in
        (full, unfold next_day in ground (arith, same, full))
    | inr e ↦
        let same : (d.year ≡ y - 1) × (d.month ≡ 12) × (d.day ≡ 31) =
          unfold previous_day leb_date in ground (arith, days_in_month_bounds d.year d.month) in
        let full : d.day ≡ days_in_month d.year d.month =
          ground (arith, same, days_in_december d.year, ap (days_in_month d.year) same.1) in
        (full, unfold next_day in ground (arith, same, full))
  ]

  in_first_half :
      holds d (cutoff_for_month y m 1) ≡ true
      → ((d.year ≡ y) × (d.month ≡ m) × (d.day ≤ 14))
        ⊎ ((d.day ≡ days_in_month d.year d.month) × (next_day d ≡ date y m 1))
  unfolding cutoff_for_month
  in_first_half h = elim (Bool-cases (leb_date (date y m 1) d)) [
    | inl e ↦ inl (unfold leb_date in ground arith)
    | inr e ↦ inr (is_carried (ground arith) e)
  ]

other_halves :
    (d : Date) (y m half : ℕ) → holds d (cutoff_for_month y m half) ≡ true → (half ≡ 1) ⊎ (half ≡ 2)
unfolding cutoff_for_month
other_halves d y m half h = ground arith

-- A cutoff that holds a day is of a year and a month that Python has.
held-IsDate :
    (d : Date) (y m half : ℕ) → holds d (cutoff_for_month y m half) ≡ true → IsDate (date y m 1)
unfolding cutoff_for_month
held-IsDate d y m half h = record {
  year_pos = ground arith;
  year_bound = ground arith;
  month_pos = ground arith;
  month_bound = ground arith;
  day_pos = omega arith;
  day_bound = omega (arith, days_in_month_bounds y m);
}

cutoff_containing_unique :
    (d : Date) (y m half : ℕ)
    → IsDate d
    → holds d (cutoff_for_month y m half) ≡ true
    → cutoff_containing d ≡ cutoff_for_month y m half
unfolding cutoff_containing
cutoff_containing_unique d y m half v h =
    let w = held-IsDate d y m half h in
    elim (other_halves d y m half h) [
      | inl first ↦ elim (in_first_half d v y m w (rw first at h)) [
        | inl (e, f, low) ↦ ground (arith, days_in_month_bounds d.year d.month)
        | inr (full, follows) ↦ ground (arith, w.year_pos, w.year_bound)
      ]
      | inr second ↦
          let (e, f, high, low) = in_second_half d v y m w (rw second at h) in ground arith
    ]

-- Each day is in the cutoff that the code returns for it, except the first fourteen days of the year 1
-- and the last day of the year 9999, for which a step past the years that Python has raises an
-- OverflowError. Any cutoff of a month and a half that holds the day is the one that is returned.
pub cutoff-partition :
    (d : Date)
    → IsDate d
    → (((is_edge d ≡ true) × (cutoff_containing d ≡ overflow))
        ⊎ ((is_edge d ≡ false) × (holds d (cutoff_containing d) ≡ true)))
      × ((y m half : ℕ)
          → holds d (cutoff_for_month y m half) ≡ true
          → cutoff_containing d ≡ cutoff_for_month y m half)
cutoff-partition d v = (
  elim (Bool-cases (is_edge d)) [
    | inl edge ↦ inl (edge, cutoff_containing-overflow d edge)
    | inr inner ↦ inr (inner, cutoff_containing-holds d v inner)
  ],
  λ y m half h. cutoff_containing_unique d y m half v h,
)
