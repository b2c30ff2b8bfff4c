-- ===== src/Ledger.antt =====
-- neura_l1/block_state.py: the account state of the chain and its transition.
pub mod Defs
pub mod Stake
mod Slash
pub mod Transition
pub mod Retarget
pub mod Blocks
mod Frame
mod Worth
mod Solvency
mod Keeps
pub mod Issue
mod Replay
mod Seizure
mod Punishment
mod SlashOnce
mod Unstake
mod Tests
