-- ===== src/Calendar/Segments.antt =====
-- core/statutory_periods.py: an earning period split at the month boundaries.
pub mod Cover
use hidden_oasis_staff_payro.Common.{
  ℕ, zero, suc, ◌-◌, Bool, false, not, Option, none, some, List, [], ◌∷◌, ◌==◌, if◌then◌else◌,
}
use hidden_oasis_staff_payro.Calendar.Date.{
  Date, leb_date, min_date, next_day, first_of_month, last_of_month, month_index,
}
use mathlib.Core.Option

-- `StatutoryMonthSegment`
pub record Segment : Type 0 where
  pub month_start : Date
  pub start : Date
  pub end : Date

abbrev pub month_end : Segment → Date
month_end s = last_of_month s.month_start

unfoldable pub same_date : Date → Date → Bool
same_date a b =
    if a.year == b.year then (if a.month == b.month then a.day == b.day else false) else false

unfoldable pub is_month_opening_segment : Segment → Bool
unfolding same_date
is_month_opening_segment s = same_date s.start s.month_start

unfoldable pub is_month_closing_segment : Segment → Bool
unfolding same_date
is_month_closing_segment s = same_date s.end (month_end s)

pub data SplitError : Type 0 where
  end_before_start : SplitError

pub data Split : Type 0 where
  ok : List Segment → Split
  err : SplitError → Split
  -- the model's loop ran out of fuel
  stuck : Split

abbrev pub segment_at : Date → Date → Segment
segment_at cursor end = record {
  month_start = first_of_month cursor;
  start = cursor;
  end = min_date end (last_of_month cursor);
}

-- The `while cursor <= end` loop.
unfoldable pub segments_from : ℕ → Date → Date → Option (List Segment)
unfolding leb_date min_date next_day
segments_from zero cursor end = none
segments_from (suc fuel) cursor end =
    let segment = segment_at cursor end in
    let rest = Option.map (λ r. segment ∷ r) (segments_from fuel (next_day segment.end) end) in
    if leb_date cursor end then rest else some []

-- One round for each month from the first to the last, and the round that stops.
abbrev pub rounds : Date → Date → ℕ
rounds start end = suc (suc (month_index end - month_index start))

abbrev finish : Option (List Segment) → Split
finish none = stuck
finish (some segments) = ok segments

unfoldable pub calendar_month_segments : Date → Date → Split
calendar_month_segments start end =
    if not (leb_date start end)
    then err end_before_start
    else finish (segments_from (rounds start end) start end)
