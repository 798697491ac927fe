-- ===== src/Payroll/Net/Taken.antt =====
-- What is taken of a pay for its cash advances, and what is left.
use hidden_oasis_staff_payro.Common.{ℕ, min, Bool, if◌then◌else◌}
use hidden_oasis_staff_payro.Payroll.Store.{Advance}
use hidden_oasis_staff_payro.Payroll.Net.{scheduled_amount}

-- What an advance asks for: its schedule, within its balance.
abbrev pub asked : (Advance → Bool) → Advance → ℕ
asked skips ca = if skips ca then 0 else min ca.outstanding_balance (scheduled_amount ca)
