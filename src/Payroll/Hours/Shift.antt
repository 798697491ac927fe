-- ===== src/Payroll/Hours/Shift.antt =====
-- The parts of a shift that meets its schedule, and what is paid of it.
use hidden_oasis_staff_payro.Common.{ℕ, ◌+◌, ◌-◌, ◌≤◌, ◌<◌, ◌≡◌, some, arith}
use hidden_oasis_staff_payro.Payroll.Hours.{
  Overlap, at_time, roll_over, shift_window, combine_dt, interval_overlap, punched_overlap,
  compute_overlap,
}

-- How a comparison accounts for the scheduled and the worked minutes.
abbrev pub IsAccounted : ℕ → Overlap → Type 0
IsAccounted break_mins o =
    (o.worked_inside_schedule ≤ o.paid_actual)
    × (o.paid_actual ≤ o.actual)
    × (o.worked_inside_schedule ≤ o.scheduled)
    × (o.actual ≤ o.paid_actual + break_mins)

punched-IsAccounted :
    (s_start s_end a_start a_end break_mins : ℕ)
    → IsAccounted break_mins (punched_overlap s_start s_end a_start a_end break_mins)
unfolding punched_overlap interval_overlap
punched-IsAccounted s_start s_end a_start a_end break_mins =
    (ground arith, ground arith, ground arith, ground arith)

-- The part of the schedule from the late arrival to the early leave.
inside_parts :
    (s_start s_end a_start a_end break_mins : ℕ)
    → s_start ≤ s_end
    → a_start ≤ a_end
    → a_start ≤ s_end
    → s_start ≤ a_end
    → let o = punched_overlap s_start s_end a_start a_end break_mins in
      o.worked_inside_schedule ≡ (o.scheduled - o.late - o.undertime) - break_mins
unfolding punched_overlap interval_overlap
inside_parts s_start s_end a_start a_end break_mins h k l m = ground arith

outside_parts :
    (s_start s_end a_start a_end break_mins : ℕ)
    → s_start ≤ s_end
    → a_start ≤ a_end
    → a_start ≤ s_end
    → s_start ≤ a_end
    → let o = punched_overlap s_start s_end a_start a_end break_mins in
      o.actual + o.late + o.undertime ≡ o.scheduled + (s_start - a_start) + o.overstay
unfolding punched_overlap
outside_parts s_start s_end a_start a_end break_mins h k l m = ground arith

-- Of a shift whose scheduled start and whose punch in are times of the day, and whose punches meet
-- the schedule: the paid minutes inside the schedule are at most the paid minutes and at most the
-- scheduled ones, the paid minutes are the worked ones less the break, the paid minutes inside the
-- schedule are the scheduled ones less the late arrival, the early leave and the break, and the worked
-- minutes with the late and the missing ones are the scheduled ones with those before and after the
-- schedule.
pub compute_overlap-IsAccounted :
    (sched_start sched_end day in_time out_time break_mins : ℕ)
    → sched_start < 1440
    → in_time < 1440
    → at_time day in_time ≤ (shift_window day sched_start sched_end).1
    → (shift_window day sched_start sched_end).0
      ≤ roll_over (at_time day in_time) (at_time day out_time)
    → let o = compute_overlap sched_start sched_end day (some in_time) (some out_time) break_mins in
      IsAccounted break_mins o
      × (o.paid_actual ≡ o.actual - break_mins)
      × (o.worked_inside_schedule ≡ (o.scheduled - o.late - o.undertime) - break_mins)
      × (o.actual + o.late + o.undertime
          ≡ o.scheduled
            + ((shift_window day sched_start sched_end).0 - at_time day in_time)
            + o.overstay)
unfolding compute_overlap combine_dt punched_overlap shift_window roll_over
compute_overlap-IsAccounted sched_start sched_end day in_time out_time break_mins f g h k =
    let s = at_time day sched_start in
    let e = roll_over s (at_time day sched_end) in
    let a = at_time day in_time in
    let b = roll_over a (at_time day out_time) in
    (
      punched-IsAccounted s e a b break_mins,
      ground arith,
      inside_parts s e a b break_mins (ground arith) (ground arith) h k,
      outside_parts s e a b break_mins (ground arith) (ground arith) h k,
    )
