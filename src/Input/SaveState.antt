-- ===== src/Input/SaveState.antt =====
-- The joystick in a save state.
use dendy.Prelude.{ℕ, ◌<◌, ◌≡◌, refl, Bool, ◌&&◌, List, [], ◌∷◌, ◌++◌, length}
use dendy.Binario.Writer.{Writer, write_uint8}
use dendy.Binario.Reader.{Reader, read_uint8_to}
use dendy.Binario.RoundTrip.{Reads, read_uint8_to-byte}
use dendy.Input.Joystick.{Joystick}

unfoldable pub save_state : Joystick → Writer → Writer
save_state c w = write_uint8 c.reset (write_uint8 c.index (write_uint8 c.buttons w))

unfoldable pub load_state : Joystick → Reader → Joystick × Bool × Reader
load_state c r =
    let (buttons, ok1, r1) = read_uint8_to c.buttons r in
    let (index, ok2, r2) = read_uint8_to c.index r1 in
    let (reset, ok3, r3) = read_uint8_to c.reset r2 in
    (record { buttons = buttons; index = index; reset = reset }, ok1 && ok2 && ok3, r3)

-- A joystick of bytes is loaded again as it was saved, over any other one, and what follows in the
-- buffer is left.
pub load_state-save_state_joystick :
    (c old : Joystick) (rest buf : List ℕ)
    → c.buttons < 256
    → c.index < 256
    → c.reset < 256
    → length buf ≡ 8
    → Reads (load_state old (record { unread = save_state c [] ++ rest; buf = buf })) c rest
unfolding save_state load_state write_uint8
load_state-save_state_joystick c old rest buf hb hi hr h =
    let s1 = read_uint8_to-byte (c.index ∷ c.reset ∷ rest) buf h c.buttons old.buttons hb in
    let s2 = read_uint8_to-byte (c.reset ∷ rest) s1.buf s1.sized c.index old.index hi in
    let s3 = read_uint8_to-byte rest s2.buf s2.sized c.reset old.reset hr in
    record {
      buf = s3.buf;
      sized = s3.sized;
      returns = rw (s1.returns, s2.returns, s3.returns) refl;
    }
