-- ===== src/Statutory.antt =====
-- core/statutory_reconciliation.py, core/payroll_engine.py: what is owed to the agencies.
pub mod Cent
pub mod Reconcile
pub mod Withholding
pub mod Sss
mod Tests
