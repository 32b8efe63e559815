-- ===== src/Ppu.antt =====
-- ppu/: the parts of the picture unit that are modelled.
pub mod Address
pub mod Scroll
pub mod Position
pub mod Tests
