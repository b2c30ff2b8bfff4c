-- ===== src/Updates.antt =====
-- tools/self_update.py: signed updates and the network's manifest.
pub mod Version
pub mod Manifest
pub mod Signed
pub mod Fetch
pub mod Winner
pub mod Best
pub mod Apply
pub mod Safe
pub mod Applies
pub mod Config
pub mod Defaults
pub mod Sync
pub mod Floor
pub mod Paths
pub mod Reclaim
pub mod Removal
pub mod Armed
pub mod Planned
pub mod Removed
pub mod Obsolete
pub mod Complete
mod Tests
