-- ===== src/Calendar/Segments/Cover.antt =====
-- The month segments of a period cover its days once each, and no other day.
use hidden_oasis_staff_payro.Common.{
  ℕ, zero, suc, ◌+◌, ◌≤◌, ◌<◌, ◌≡◌, refl, sym, inl, inr, true, false, ◌&&◌, some, List, [], ◌∷◌,
  arith, if◌then◌else◌, Bool-cases, All, sum_by,
}
use hidden_oasis_staff_payro.Calendar.Date.{
  Date, IsDate, leb_date, min_date, next_day, first_of_month, last_of_month, month_index, day_key,
}
use hidden_oasis_staff_payro.Calendar.Order.{
  days_in_month_bounds, leb_date-key, last_of_month-IsDate, next_day-IsDate, next_day-le_iff,
  leb_date→le, le→leb_date,
}
use hidden_oasis_staff_payro.Calendar.Segments.{
  Segment, ok, segment_at, segments_from, rounds, calendar_month_segments,
}

-- How many of the segments hold the day.
abbrev pub in_period : Date → Date → Date → ℕ
in_period start end d = if leb_date start d && leb_date d end then 1 else 0

abbrev pub segments_with : Date → List Segment → ℕ
segments_with d segments = sum_by (λ s. in_period s.start s.end d) segments

-- A segment is a stretch of days of the month that it names.
pub record IsMonthStretch (s : Segment) : Type 0 where
  pub opens : s.month_start ≡ first_of_month s.start
  pub ordered : leb_date s.start s.end ≡ true
  pub one_month : month_index s.start ≡ month_index s.end

abbrev IsEnough : ℕ → Date → Date → Type 0
IsEnough fuel cursor end =
    (1 ≤ fuel) × (day_key cursor ≤ day_key end → month_index end + 2 ≤ fuel + month_index cursor)

abbrev segment_end : Date → Date → Date
segment_end cursor end = min_date end (last_of_month cursor)

segment_end-IsDate : (c e : Date) → IsDate c → IsDate e → IsDate (segment_end c e)
unfolding min_date
segment_end-IsDate c e vc ve = elim (Bool-cases (leb_date e (last_of_month c))) [
  | inl h ↦ rw h ve
  | inr h ↦ rw h (last_of_month-IsDate c vc)
]

-- The segment that opens at `c` ends in the month of `c`, at the period's end or before.
segment_end-key :
    (c e : Date)
    → IsDate c
    → IsDate e
    → day_key c ≤ day_key e
    → (day_key c ≤ day_key (segment_end c e))
      × (day_key (segment_end c e) ≤ day_key e)
      × (month_index (segment_end c e) ≡ month_index c)
unfolding min_date
segment_end-key c e vc ve h = ground (
  arith,
  leb_date-key e (last_of_month c) ve (last_of_month-IsDate c vc),
  days_in_month_bounds c.year c.month,
  days_in_month_bounds e.year e.month,
)

-- Where the period goes on, the next segment opens in the next month.
segment_end-next :
    (c e : Date)
    → IsDate c
    → IsDate e
    → day_key (segment_end c e) < day_key e
    → month_index (next_day (segment_end c e)) ≡ month_index c + 1
unfolding min_date next_day
segment_end-next c e vc ve h =
    ground (arith, leb_date-key e (last_of_month c) ve (last_of_month-IsDate c vc))

IsEnough-next :
    (fuel : ℕ) (c e : Date)
    → IsDate c
    → IsDate e
    → day_key c ≤ day_key e
    → IsEnough (suc fuel) c e
    → IsEnough fuel (next_day (segment_end c e)) e
IsEnough-next fuel c e vc ve h enough =
    let vs = segment_end-IsDate c e vc ve in
    let last = days_in_month_bounds e.year e.month in
    (
      omega (arith, enough.1 h),
      λ before.
          let below = (next_day-le_iff (segment_end c e) e vs ve).0 before in
          omega (arith, enough.1 h, segment_end-next c e vc ve below),
    )

segment_end-next-IsDate :
    (c e : Date)
    → IsDate c
    → IsDate e
    → e.year < 9999
    → day_key c ≤ day_key e
    → IsDate (next_day (segment_end c e))
segment_end-next-IsDate c e vc ve small h =
    let vs = segment_end-IsDate c e vc ve in
    next_day-IsDate (segment_end c e) vs (
      omega (
        arith,
        vs.month_pos,
        (segment_end-key c e vc ve h).1,
        days_in_month_bounds (segment_end c e).year (segment_end c e).month,
        days_in_month_bounds e.year e.month,
      ))

-- A day of the period is in the segment or in what follows it, and not in both.
in_period-split :
    (c e d : Date)
    → IsDate c
    → IsDate e
    → IsDate d
    → e.year < 9999
    → leb_date c e ≡ true
    → in_period c (segment_end c e) d + in_period (next_day (segment_end c e)) e d ≡ in_period c e d
in_period-split c e d vc ve vd small h =
    let vs = segment_end-IsDate c e vc ve in
    let le = leb_date→le c e vc ve h in
    let key = segment_end-key c e vc ve le in
    let after = next_day-le_iff (segment_end c e) d vs vd in
    ground (
      arith,
      leb_date-key c d vc vd,
      leb_date-key d e vd ve,
      leb_date-key d (segment_end c e) vd vs,
      leb_date-key (next_day (segment_end c e)) d (segment_end-next-IsDate c e vc ve small le) vd,
      after.0,
      after.1,
      key,
    )

in_period-empty :
    (c e d : Date) → IsDate c → IsDate e → IsDate d → leb_date c e ≡ false → 0 ≡ in_period c e d
in_period-empty c e d vc ve vd h =
    ground (arith, leb_date-key c e vc ve, leb_date-key c d vc vd, leb_date-key d e vd ve)

segment_at-IsMonthStretch :
    (c e : Date) → IsDate c → IsDate e → leb_date c e ≡ true → IsMonthStretch (segment_at c e)
segment_at-IsMonthStretch c e vc ve before =
    let (above, _, same) = segment_end-key c e vc ve (leb_date→le c e vc ve before) in
    record {
      opens = refl;
      ordered = le→leb_date c (segment_end c e) vc (segment_end-IsDate c e vc ve) above;
      one_month = sym same;
    }

segments_from_lem :
    (fuel : ℕ) (c e : Date)
    → IsDate c
    → IsDate e
    → e.year < 9999
    → IsEnough fuel c e
    → (segments : List Segment) × (segments_from fuel c e ≡ some segments)
      × ((d : Date) → IsDate d → segments_with d segments ≡ in_period c e d)
      × All IsMonthStretch segments
unfolding segments_from
segments_from_lem zero c e vc ve small enough = absurd (omega arith)
segments_from_lem (suc fuel) c e vc ve small enough = elim (Bool-cases (leb_date c e)) [
  | inr past ↦ ([], rw past, λ d vd. in_period-empty c e d vc ve vd past, tt)
  | inl before ↦
      let le = leb_date→le c e vc ve before in
      let (rest, runs, covers, stretches) =
        segments_from_lem fuel (next_day (segment_end c e)) e
          (segment_end-next-IsDate c e vc ve small le) ve small
          (IsEnough-next fuel c e vc ve le enough) in
      (
        segment_at c e ∷ rest,
        rw (before, runs),
        λ d vd. rw (covers d vd) (in_period-split c e d vc ve vd small before),
        (segment_at-IsMonthStretch c e vc ve before, stretches),
      )
]

-- A period that does not end before it starts, and ends before the year 9999, is split without
-- error: each day of the period lies in exactly one segment and any other day in none, and each
-- segment is a stretch of days of one month that opens with the month's first day as its label.
pub segments-cover :
    (start end : Date)
    → IsDate start
    → IsDate end
    → end.year < 9999
    → leb_date start end ≡ true
    → (segments : List Segment) × (calendar_month_segments start end ≡ ok segments)
      × ((d : Date) → IsDate d → segments_with d segments ≡ in_period start end d)
      × All IsMonthStretch segments
unfolding calendar_month_segments
segments-cover start end vs ve small h =
    let (segments, runs, covers, stretches) =
      segments_from_lem (rounds start end) start end vs ve small (omega arith) in
    (segments, rw (h, runs), covers, stretches)
