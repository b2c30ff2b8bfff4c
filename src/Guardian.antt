-- ===== src/Guardian.antt =====
-- neurahash/guardian_halt.py: the emergency halt of the pool.
pub mod Defs
pub mod Signers
pub mod Orders
pub mod Expiry
mod Tests
