-- ===== src/Settlement.antt =====
-- neurahash/diloco_settlement.py and neurahash/chain_settlement.py: the settlement of rewards on a
-- signed chain, and the quorum of validators that authorises it.
pub mod Multisig
pub mod Chain
pub mod Quorum
pub mod Store
pub mod Replay
pub mod Restore
pub mod Public
mod Tests
pub mod Policy
pub mod Stake
