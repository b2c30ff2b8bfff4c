-- ===== src/RoundAuthority.antt =====
-- neurahash/diloco_round_authority.py: who drives a round, and how a peer accepts its block.
pub mod Defs
pub mod Takeover
pub mod Quorums
pub mod Replica
mod Tests
