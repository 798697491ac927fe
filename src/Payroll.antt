-- ===== src/Payroll.antt =====
-- core/payroll_engine.py, api/cash_advance_service.py: payroll runs, and the cash advances that they repay.
pub mod Store
pub mod Advances
pub mod Queue
pub mod Lifecycle
pub mod Ledger
pub mod Revision
pub mod Hours
pub mod Money
pub mod Receipt
pub mod Credit
pub mod Settle
pub mod Net
pub mod Dated
pub mod Deduct
pub mod Apply
pub mod Payment
pub mod Thirteenth
pub mod Manual
mod Tests
