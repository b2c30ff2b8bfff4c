-- ===== src/Merkle.antt =====
-- neurahash/merkle_verify.py: the Merkle tree over the states of a training run.
pub mod Defs
pub mod Proofs
pub mod Fuel
pub mod Check
pub mod Honest
mod Tests
