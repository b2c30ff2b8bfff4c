-- ===== src/Vram.antt =====
-- neurahash/vram_autotune.py and neurahash/vram_manager.py: how much memory of a card is held.
pub mod Defs
pub mod Fit
pub mod Patience
pub mod Growth
pub mod Cap
mod Tests
