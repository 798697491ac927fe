-- ===== src/Payroll/Hours.antt =====
-- core/payroll_engine.py: `shift_window`, `minutes_between`, `interval_overlap`, `compute_overlap` and
-- `compute_nd_hours`. A moment is a number of minutes from the start of day 0, a date is the number
-- of its day, and a duration is a number of minutes, from which the code makes hours at the end.
pub mod Shift
pub mod Night
mod Tests
use hidden_oasis_staff_payro.Common.{
  ℕ, zero, suc, ◌+◌, ◌-◌, ◌*◌, ◌/◌, min, max, Option, none, some, ltb, leb, if◌then◌else◌,
}

abbrev pub day_minutes : ℕ
day_minutes = 1440

-- `datetime.combine` on a date and the minutes of a time of day.
unfoldable pub combine_dt : ℕ → Option ℕ → Option ℕ
combine_dt day none = none
combine_dt day (some t) = some (day * day_minutes + t)

abbrev pub at_time : ℕ → ℕ → ℕ
at_time day t = day * day_minutes + t

-- An end that is not after the start is on the next day.
unfoldable pub roll_over : ℕ → ℕ → ℕ
roll_over start end = if leb end start then end + day_minutes else end

unfoldable pub shift_window : ℕ → ℕ → ℕ → ℕ × ℕ
shift_window day start end = (at_time day start, roll_over (at_time day start) (at_time day end))

abbrev pub minutes_between : ℕ → ℕ → ℕ
minutes_between a b = b - a

unfoldable pub interval_overlap : ℕ → ℕ → ℕ → ℕ → ℕ
interval_overlap a_start a_end b_start b_end = min a_end b_end - max a_start b_start

pub record Overlap : Type 0 where
  pub scheduled : ℕ
  pub actual : ℕ
  pub paid_actual : ℕ
  pub worked_inside_schedule : ℕ
  pub late : ℕ
  pub undertime : ℕ
  pub overstay : ℕ

-- A punch is missing.
unfoldable pub absent_overlap : ℕ → ℕ → Option ℕ → Overlap
absent_overlap s_start s_end a_start = record {
  scheduled = minutes_between s_start s_end;
  actual = 0;
  paid_actual = 0;
  worked_inside_schedule = 0;
  late = elim a_start [ none ↦ minutes_between s_start s_end | some _ ↦ 0 ];
  undertime = 0;
  overstay = 0;
}

-- Both punches are there.
unfoldable pub punched_overlap : ℕ → ℕ → ℕ → ℕ → ℕ → Overlap
unfolding interval_overlap
punched_overlap s_start s_end a_start a_end break_mins =
    let inside = interval_overlap a_start a_end s_start s_end in
    record {
      scheduled = minutes_between s_start s_end;
      actual = minutes_between a_start a_end;
      paid_actual = minutes_between a_start a_end - break_mins;
      worked_inside_schedule = inside - min break_mins inside;
      late = if ltb s_start a_start then minutes_between s_start a_start else 0;
      undertime = if ltb a_end s_end then minutes_between a_end s_end else 0;
      overstay = if ltb s_end a_end then minutes_between s_end a_end else 0;
    }

-- The times as minutes of the day: those of the schedule, and the two punches.
unfoldable pub compute_overlap : ℕ → ℕ → ℕ → Option ℕ → Option ℕ → ℕ → Overlap
unfolding shift_window roll_over combine_dt absent_overlap punched_overlap
compute_overlap sched_start sched_end day actual_in actual_out break_mins =
    let window = shift_window day sched_start sched_end in
    elim (combine_dt day actual_in) [
      | none ↦ absent_overlap window.0 window.1 none
      | some a_start ↦ elim (combine_dt day actual_out) [
        | none ↦ absent_overlap window.0 window.1 (some a_start)
        | some a_end ↦
            punched_overlap window.0 window.1 a_start (roll_over a_start a_end) break_mins
      ]
    ]

-- From 22:00 of the day to 06:00 of the next.
unfoldable pub night_overlap : ℕ → ℕ → ℕ → ℕ
unfolding interval_overlap
night_overlap a_start a_end day =
    interval_overlap a_start a_end (at_time day 1320) (at_time (day + 1) 360)

-- `while cur_date <= a_end.date()`, on fuel.
unfoldable pub night_loop : ℕ → ℕ → ℕ → ℕ → ℕ → Option ℕ
night_loop zero a_start a_end cur_date total = none
night_loop (suc fuel) a_start a_end cur_date total =
    let rest =
      night_loop fuel a_start a_end (cur_date + 1) (total + night_overlap a_start a_end cur_date) in
    if leb cur_date (a_end / day_minutes) then rest else some total

-- `None` where the fuel is spent.
unfoldable pub compute_nd : ℕ → ℕ → Option ℕ → Option ℕ → ℕ → Option ℕ
unfolding combine_dt roll_over
compute_nd fuel day actual_in actual_out break_mins = elim (combine_dt day actual_in) [
  | none ↦ some 0
  | some a_start ↦ elim (combine_dt day actual_out) [
    | none ↦ some 0
    | some a_end ↦
        elim (night_loop fuel a_start (roll_over a_start a_end) (a_start / day_minutes - 1) 0) [
          | none ↦ none
          | some total ↦ some (
              if ltb 0 total then if ltb 0 break_mins then total - break_mins else total else total)
        ]
  ]
]
