-- ===== src/Netplay/Console.antt =====
-- The console as netplay/game.go uses it, with the two joysticks plugged in.
use dendy.Prelude.{ℕ, ◌≡◌, Option, none}

-- `S` is the state of the console and its joysticks, `Snap` what `SaveState` writes. `none` is a
-- panic: of an instruction or a memory access in a frame, or over an error in saving or loading.
pub record Console (S Snap : Type 0) : Type 0 where
  pub play : S → Option S  -- ticks until a frame is ready
  pub play_fast : S → Option S  -- the same, in fast forward
  pub save_state : S → Option Snap
  pub load_state : Snap → S → Option S
  pub local_buttons : S → ℕ
  pub remote_buttons : S → ℕ
  pub set_local : S → ℕ → S
  pub set_remote : S → ℕ → S

-- A call of the console that panics.
pub data Panics {S Snap : Type 0} (c : Console S Snap) : Type 0 where
  plays : (s : S) → c.play s ≡ none → Panics c
  plays_fast : (s : S) → c.play_fast s ≡ none → Panics c
  saves : (s : S) → c.save_state s ≡ none → Panics c
  loads : (snap : Snap) (s : S) → c.load_state snap s ≡ none → Panics c
