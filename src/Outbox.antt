-- ===== src/Outbox.antt =====
-- The durable outbox of integration events (core/integration_outbox.py).
pub mod Envelope
pub mod Settlement
pub mod Canonical
pub mod Row
pub mod Table
pub mod Enqueue
pub mod Claim
pub mod Routing
pub mod Deliver
pub mod Drain
pub mod System
mod Tests
