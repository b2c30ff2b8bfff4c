-- ===== src/Validators.antt =====
-- neurahash/quorum.py: validators that vote on a worker's submission.
pub mod Defs
pub mod Honest
mod Tests
