-- ===== src/Security.antt =====
-- core/login_security.py: failed logins.
pub mod Lockout
mod Tests
