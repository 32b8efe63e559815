-- ===== src/Binario.antt =====
-- internal/binario, the binary reader and writer of save states and messages, little-endian.
pub mod Writer
pub mod Reader
pub mod RoundTrip
pub mod Values
pub mod VarUint
pub mod Tests
