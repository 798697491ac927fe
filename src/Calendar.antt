-- ===== src/Calendar.antt =====
-- Dates (core/statutory_periods.py, core/payroll_cutoff_calendar.py).
pub mod Date
pub mod Order
pub mod Segments
pub mod Cutoff
mod Tests
