-- ===== src/Clock.antt =====
-- neurahash/diloco_clock.py: the round clock agreed by commit and reveal.
pub mod Defs
pub mod Commits
pub mod Reveals
pub mod Agreement
pub mod Audit
pub mod Shadow
pub mod Log
pub mod Opening
mod Tests
