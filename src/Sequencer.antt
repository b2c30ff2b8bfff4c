-- ===== src/Sequencer.antt =====
-- neura_l1/pool_sequencer.py: the audit of round commitments, failover and election.
pub mod Defs
pub mod Chain
pub mod Failover
mod Tests
