-- ===== src/Lib.antt =====
-- Hidden Oasis Staff and Payroll: the durable outbox of integration events, the life of a payroll
-- run and the cash advances that it repays, the journal lines of a paid run, the calendar of cutoffs
-- and contribution months, the reconciliation of statutory remittances, and the lock after failed
-- logins.
--
-- How the parts work together: a payroll run is taken from draft over review and approval to paid.
-- Its payment repays cash advances, writes the journal lines and hands an event to the outbox, which
-- workers claim and deliver to Accounting and the other systems. Cutoffs are split into contribution
-- months, whose dues and remittances are reconciled program by program.
--
-- Files, and the code that each models:
--   Common             numbers, lists, signed amounts (Int) and text as code points (Texts)
--   Outbox/Envelope    the queued envelope, as canonical_accounting_payload reads it
--   Outbox/Settlement  how a repayment was settled (core/integration_outbox.py, the branch
--                      cash_advance.repaid)
--   Outbox/Canonical   canonical_accounting_payload
--   Outbox/Row         the table integration_outbox; ensure_integration_schema
--   Outbox/Enqueue     enqueue_event
--   Outbox/Claim       claim_events
--   Outbox/Routing     destination_config, endpoint_for, _join_url
--   Outbox/Deliver     process_claimed_event
--   Outbox/Drain       process_due_events
--   Outbox/System      producers and workers over one table, as a step relation
--   Payroll/Store      the tables that the life of a run uses (core/payroll_engine.py)
--   Payroll/Advances   apply_cash_advance_repayments, reverse_cash_advance_repayments
--   Payroll/Queue      create_accounting_queue_for_payroll
--   Payroll/Lifecycle  update_payroll_status, with core/payroll_revision_lifecycle.py
--   Payroll/Ledger     calculate_balance, recalculate_balance and the balances of ensure_schema
--                      (api/cash_advance_service.py)
--   Payroll/Receipt    the INSERT of a repayment, build_cash_advance_repayment_payload
--                      (core/integration_accounting.py)
--   Payroll/Manual     record_manual_repayment (api/cash_repayments.py)
--   Payroll/Credit     correct_cash_advance_amount (api/cash_advance_corrections.py)
--   Payroll/Settle     settle_cash_advance_credit (api/cash_advance_corrections.py)
--   Payroll/Hours      compute_overlap, compute_nd_hours (core/payroll_engine.py)
--   Payroll/Net        the net pay of compute_employee_payroll (core/payroll_engine.py) and of
--                      _recompute_statutory_and_net (core/payroll_fractional_leave.py)
--   Payroll/Dated      DatedEarningsLedger (core/dated_earnings.py)
--   Payroll/Deduct     one advance of apply_payroll_cash_advance_repayments
--                      (core/cash_advance_payroll.py)
--   Payroll/Apply      its loops, and reverse_payroll_cash_advance_repayments
--   Payroll/Payment    mark_payroll_run_paid (api/payroll_mark_paid.py)
--   Payroll/Thirteenth 13th month pay: basis, saving, journal entry (core/payroll_engine.py)
--   Payroll/Money      money (core/money.py), and how near it is
--   Payroll/Revision   revision_parent_for_payment (core/payroll_revision_lifecycle.py)
--   Security/Lockout   failed logins (core/login_security.py)
--   Calendar           core/statutory_periods.py (Segments), core/payroll_cutoff_calendar.py (Cutoff)
--   Statutory          core/statutory_reconciliation.py (Cent, Reconcile) and
--                      compute_semi_monthly_withholding_tax (Withholding), get_sss_share (Sss), both
--                      of core/payroll_engine.py
--
-- Choices of the model. Amounts of the payroll and of the outbox are whole centavos, except
-- those that 13th month pay and dated earnings round: they are parts of a centavo (unit, any number of
-- them to the centavo), and Payroll/Money is their rounding. Statutory/Cent rounds decimals. Sums that
-- the code makes of floats are exact. A table is a list of its rows in the order of their ids, and a row
-- that a query returns is a copy, as in the code. Balances of advances are not negative: the code
-- never writes a negative one. An instant is a number of seconds (the clock
-- of the login lockout has microseconds); the outbox compares its stamps as
-- text, and the clock of the host is taken to be UTC. Strip, lower and digits are those of ASCII. The
-- HTTP request and the environment are parameters (World). The preflight result, and whether the
-- hand-off of a run to the outbox fails, come with a request. Error texts are shortened. Hours are kept
-- in minutes, before their last rounding. date.fromisoformat is a parameter (from_iso), and what a
-- manual repayment does is proved for every such reading of dates.
--
-- Loops are structural, except the one that splits a period into months: it runs on fuel (rounds),
-- the number of months from the first to the last and two more, which is proved to be enough. The
-- loop of process_due_events has a round for each unit of its limit. The loop over the nights of a
-- shift runs on fuel too: four rounds are proved to be enough.
--
-- Not modelled: the DDL and column migrations of the tables, the earnings and the contributions of an
-- employee's pay, the preflight checks, schedules and attendance, accounts and sessions, the other
-- HTTP routes, the web client, exports and backups.
pub mod Common
pub mod Calendar
pub mod Outbox
pub mod Statutory
pub mod Payroll
pub mod Security
