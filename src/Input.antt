-- ===== src/Input.antt =====
-- input/, the devices in the two ports of the console: input/joystick.go and input/zapper.go.
pub mod Joystick
pub mod Zapper
pub mod SaveState
mod Tests
