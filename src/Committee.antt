-- ===== src/Committee.antt =====
-- neurahash/diloco_committee.py: the committee that votes on a merge candidate.
pub mod Defs
pub mod Majority
mod Tests
