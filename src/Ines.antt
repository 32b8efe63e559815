-- ===== src/Ines.antt =====
-- ines/: the cartridge of the console, its ROM and the mappers.
pub mod Rom
pub mod Mapper0
pub mod Mapper1
pub mod Mapper2
pub mod Mapper3
pub mod Mapper4
pub mod Mapper7
pub mod Cartridge
pub mod Static
pub mod Loaded
pub mod Dispatch
pub mod Scanlines
pub mod Serial
pub mod Banks
pub mod Access
pub mod Play
pub mod Run
pub mod SaveWords
pub mod SaveState
pub mod Tests
