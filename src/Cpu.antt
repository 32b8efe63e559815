-- ===== src/Cpu.antt =====
-- cpu/, the 6502 processor. A handler takes the registers and the memory, and returns both: a
-- memory read may change the memory, as the registers of the picture unit do.
pub mod State
pub mod Flags
pub mod Addr
pub mod Official
pub mod Arith
pub mod Stack
pub mod Interrupts
pub mod Illegal
pub mod Opcodes
pub mod Tick
pub mod Table
pub mod Timing
pub mod SaveState
mod Tests
