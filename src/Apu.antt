-- ===== src/Apu.antt =====
-- apu/: the audio unit.
pub mod Envelope
pub mod Square
pub mod Triangle
pub mod Noise
pub mod Dmc
pub mod Unit
pub mod Bounds
pub mod Levels
pub mod Decay
pub mod Tests
