-- ===== src/Payroll/Hours/Night.antt =====
-- Night-differential time is the number of minutes worked between 22:00 and 06:00.
use hidden_oasis_staff_payro.Common.{
  ℕ, zero, suc, ◌+◌, ◌-◌, ◌/◌, ◌%◌, ◌≤◌, ◌<◌, ◌≡◌, subst, refl, ap, ◌∙◌, Bool, ◌||◌, some, ltb, leb,
  if◌then◌else◌, arith,
}
use hidden_oasis_staff_payro.Payroll.Hours.{
  day_minutes, at_time, interval_overlap, night_overlap, night_loop, compute_nd, combine_dt,
  roll_over,
}

abbrev pub is_night : ℕ → Bool
is_night m = leb 1320 (m % 1440) || ltb (m % 1440) 360

-- The minutes of the night among the `n` minutes from `a`.
abbrev pub night_minutes : ℕ → ℕ → ℕ
night_minutes a zero = 0
night_minutes a (suc n) = night_minutes a n + (if is_night (a + n) then 1 else 0)

-- The windows of the `k` nights from the evening of day `d`.
abbrev nights : ℕ → ℕ → ℕ → ℕ → ℕ
nights zero d a b = 0
nights (suc k) d a b = night_overlap a b d + nights k (d + 1) a b

abbrev hits : ℕ → ℕ → ℕ → ℕ
hits zero d m = 0
hits (suc k) d m =
    (if leb (at_time d 1320) m then if ltb m (at_time (d + 1) 360) then 1 else 0 else 0)
    + hits k (d + 1) m

overlap-step :
    (a b lo hi : ℕ)
    → a ≤ b
    → lo ≤ hi
    → interval_overlap a (suc b) lo hi
      ≡ interval_overlap a b lo hi + (if leb lo b then if ltb b hi then 1 else 0 else 0)
unfolding interval_overlap
overlap-step a b lo hi h k = ground arith

nights-step : (k d a b : ℕ) → a ≤ b → nights k d a (suc b) ≡ nights k d a b + hits k d b
unfolding night_overlap
nights-step zero d a b h = refl
nights-step (suc k) d a b h = omega (
  arith,
  nights-step k (d + 1) a b h,
  overlap-step a b (at_time d 1320) (at_time (d + 1) 360) h (omega arith),
)

nights-none : (k d a : ℕ) → nights k d a a ≡ 0
unfolding night_overlap interval_overlap
nights-none zero d a = refl
nights-none (suc k) d a = omega (arith, nights-none k (d + 1) a)

hits-before : (k d m : ℕ) → m < at_time d 1320 → hits k d m ≡ 0
hits-before zero d m h = refl
hits-before (suc k) d m h = ground (arith, hits-before k (d + 1) m)

hits-night :
    (k d m : ℕ)
    → at_time d 360 ≤ m
    → m < at_time (d + k) 1320
    → hits k d m ≡ (if is_night m then 1 else 0)
hits-night zero d m h l = ground arith
hits-night (suc k) d m h l = ground (arith, hits-before k (d + 1) m, hits-night k (d + 1) m)

nights-night_minutes :
    (k d a n : ℕ)
    → at_time d 360 ≤ a
    → a + n ≤ at_time (d + k) 1320
    → nights k d a (a + n) ≡ night_minutes a n
nights-night_minutes k d a zero h l =
    let at_start : a + 0 ≡ a = omega arith in rw at_start (nights-none k d a)
nights-night_minutes k d a (suc n) h l =
    let at_next : a + suc n ≡ suc (a + n) = omega arith in
    rw at_next (
      omega (
        arith,
        nights-step k d a (a + n) (omega arith),
        hits-night k d (a + n) (omega arith) (omega arith),
        nights-night_minutes k d a n h (omega arith),
      ))

-- The loop adds the windows of the nights that are left.
loop-nights :
    (k fuel a b cur total : ℕ)
    → k + cur ≡ b / 1440 + 1
    → k < fuel
    → night_loop fuel a b cur total ≡ some (total + nights k cur a b)
unfolding night_loop
loop-nights k zero a b cur total h l = absurd (omega arith)
loop-nights zero (suc fuel) a b cur total h l = ground arith
loop-nights (suc k) (suc fuel) a b cur total h l =
    ground (arith, loop-nights k fuel a b (cur + 1) (total + night_overlap a b cur))

loop-night_minutes :
    (k fuel a b n cur : ℕ)
    → a + n ≡ b
    → k + cur ≡ b / 1440 + 1
    → k < fuel
    → at_time cur 360 ≤ a
    → b ≤ at_time (cur + k) 1320
    → night_loop fuel a b cur 0 ≡ some (night_minutes a n)
loop-night_minutes k fuel a b n cur same h l first last =
    let counted = nights-night_minutes k cur a n first (omega arith) in
    let summed : 0 + nights k cur a b ≡ night_minutes a n =
      omega (arith, subst (λ x. nights k cur a x ≡ night_minutes a n) same counted) in
    loop-nights k fuel a b cur 0 h l ∙ ap some summed

-- For a shift after day 0 whose punches are times of the day, fuel for four nights is enough, and
-- the night-differential time is the number of minutes between 22:00 and 06:00 from the punch in to
-- the punch out, on the next day where it is not after the punch in, less the break.
pub compute_nd-night_minutes :
    (fuel day in_time out_time break_mins : ℕ)
    → 1 ≤ day
    → in_time < 1440
    → out_time < 1440
    → 4 ≤ fuel
    → compute_nd fuel day (some in_time) (some out_time) break_mins
      ≡ some (
          night_minutes
            (at_time day in_time)
            (if leb out_time in_time then out_time + 1440 - in_time else out_time - in_time)
          - break_mins)
unfolding compute_nd combine_dt roll_over
compute_nd-night_minutes fuel day in_time out_time break_mins h i o f =
    let a = at_time day in_time in
    let n = if leb out_time in_time then out_time + 1440 - in_time else out_time - in_time in
    let b = roll_over a (at_time day out_time) in
    let k = b / 1440 + 2 - day in
    let total : night_loop fuel a b (a / day_minutes - 1) 0 ≡ some (night_minutes a n) =
      loop-night_minutes k fuel a b n (a / day_minutes - 1) (ground arith) (ground arith)
        (ground arith) (ground arith) (ground arith) in
    rw (total, compute_nd) (ground arith)
