-- ===== src/Input/Tests.antt =====
-- The theorems at concrete devices.
use dendy.Prelude.{[], ◌∷◌, ◌++◌, ◌≡◌, refl, arith, ◌↔◌, bit_and, ◌<◌, true, false, get_elem?, some}
use dendy.Input.Joystick.{Joystick, reads, reads-strobe, reads-held}
use dendy.Input.Joystick
use dendy.Input.Zapper
use dendy.Input.SaveState.{save_state, load_state, load_state-save_state_joystick}
use dendy.Binario.RoundTrip.{Reads}
use dendy.Input.Zapper.{read-update}

-- A and Start, in the middle of a read.
abbrev pressed : Joystick
pressed = record { buttons = 0x09; index = 5; reset = 0 }

reads-strobe_example : get_elem? (reads 8 (Joystick.write (Joystick.write pressed 1) 0)) 3 ≡ some 1
reads-strobe_example = reads-strobe pressed 1 0 8 3 refl refl (omega arith) (omega arith)

reads-held_example : get_elem? (reads 8 (Joystick.write pressed 1)) 3 ≡ some 1
reads-held_example = reads-held pressed 1 8 3 refl (omega arith)

read-update_example :
    let aimed = Zapper.write (Zapper.update Zapper.new 200 true) 1 in
    ((bit_and (Zapper.read aimed) 16 ≡ 0) ↔ (true ≡ false))
    × ((bit_and (Zapper.read aimed) 8 ≡ 0) ↔ (64 < 200))
    × (bit_and (Zapper.read (Zapper.vblank aimed)) 8 ≡ 8)
    × (bit_and (Zapper.read (Zapper.vblank aimed)) 16 ≡ bit_and (Zapper.read aimed) 16)
read-update_example = read-update Zapper.new 200 1 true

load_state-save_state_joystick_example :
    Reads
      (load_state Joystick.new (record {
        unread = save_state pressed [] ++ (77 ∷ []);
        buf = 9 ∷ 9 ∷ 9 ∷ 9 ∷ 9 ∷ 9 ∷ 9 ∷ 9 ∷ [];
      }))
      pressed
      (77 ∷ [])
load_state-save_state_joystick_example =
    load_state-save_state_joystick pressed Joystick.new (77 ∷ [])
      (9 ∷ 9 ∷ 9 ∷ 9 ∷ 9 ∷ 9 ∷ 9 ∷ 9 ∷ []) (omega arith) (omega arith) (omega arith) refl
