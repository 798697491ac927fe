-- ===== src/Payroll/Hours/Tests.antt =====
-- A day shift and a night shift (core/payroll_engine.py).
use hidden_oasis_staff_payro.Common.{◌+◌, ◌-◌, ◌≤◌, ◌≡◌, refl, some, arith, if◌then◌else◌, leb}
use hidden_oasis_staff_payro.Payroll.Hours.{
  at_time, roll_over, shift_window, combine_dt, interval_overlap, punched_overlap, compute_overlap,
  compute_nd, night_loop, night_overlap,
}
use hidden_oasis_staff_payro.Payroll.Hours.Shift.{IsAccounted, compute_overlap-IsAccounted}
use hidden_oasis_staff_payro.Payroll.Hours.Night.{night_minutes, compute_nd-night_minutes}

-- 21:00 to 06:30 with a break of an hour: eight hours of the night less the break.
night_shift : compute_nd 4 100 (some 1260) (some 390) 60 ≡ some 420
unfolding compute_nd combine_dt roll_over night_loop night_overlap interval_overlap
night_shift = refl

-- A punch in after midnight is taken for the midnight before the shift: nothing of a shift from 22:00
-- to 06:00 that is worked from 00:05 to 06:00 is inside the schedule.
after_midnight : (compute_overlap 1320 360 100 (some 5) (some 360) 0).worked_inside_schedule ≡ 0
unfolding compute_overlap shift_window roll_over combine_dt punched_overlap interval_overlap
after_midnight = refl

compute_nd-night_minutes_example :
    compute_nd 4 100 (some 1260) (some 390) 60
    ≡ some (
        night_minutes (at_time 100 1260) (if leb 390 1260 then 390 + 1440 - 1260 else 390 - 1260)
        - 60)
compute_nd-night_minutes_example =
    compute_nd-night_minutes 4 100 1260 390 60 (omega arith) (omega arith) (omega arith)
      (omega arith)

before_end : at_time 100 555 ≤ (shift_window 100 540 1080).1
unfolding shift_window roll_over
before_end = omega arith

after_start : (shift_window 100 540 1080).0 ≤ roll_over (at_time 100 555) (at_time 100 1050)
unfolding shift_window roll_over
after_start = omega arith

compute_overlap-IsAccounted_example :
    let o = compute_overlap 540 1080 100 (some 555) (some 1050) 60 in
    IsAccounted 60 o
    × (o.paid_actual ≡ o.actual - 60)
    × (o.worked_inside_schedule ≡ (o.scheduled - o.late - o.undertime) - 60)
    × (o.actual + o.late + o.undertime
        ≡ o.scheduled + ((shift_window 100 540 1080).0 - at_time 100 555) + o.overstay)
compute_overlap-IsAccounted_example =
    compute_overlap-IsAccounted 540 1080 100 555 1050 60 (omega arith) (omega arith) before_end
      after_start
