-- ===== src/Input/Joystick.antt =====
-- input/joystick.go, the shift register of a joystick.
use dendy.Prelude.{
  ℕ, zero, suc, ◌+◌, ◌<◌, ◌≡◌, refl, ap, ◌∙◌, arith, bit_and, u8, shr, ◌==◌, true, false,
  if◌then◌else◌, List, [], ◌∷◌, get_elem?, some,
}

pub record Joystick : Type 0 where
  pub buttons : ℕ  -- uint8
  pub index : ℕ  -- uint8
  pub reset : ℕ  -- uint8

unfoldable pub new : Joystick
new = record { buttons = 0; index = 0; reset = 0 }

unfoldable pub reset_all : Joystick → Joystick
reset_all c = record { buttons = 0; index = 0; reset = 0 }

unfoldable pub set_buttons : Joystick → ℕ → Joystick
set_buttons c buttons = record c { buttons = buttons }

unfoldable pub read : Joystick → ℕ × Joystick
read c =
    let value = bit_and (shr c.buttons c.index) 0x01 in
    let moved = record c { index = u8 (c.index + 1) } in
    (value, if bit_and c.reset 0x01 == 1 then record moved { index = 0 } else moved)

unfoldable pub write : Joystick → ℕ → Joystick
write c value =
    let held = record c { reset = value } in
    if bit_and value 0x01 == 1 then record held { index = 0 } else held

-- The bytes of so many reads in a row.
unfoldable pub reads : ℕ → Joystick → List ℕ
reads zero c = []
reads (suc n) c = let (value, next) = read c in value ∷ reads n next

reads_from :
    (n k : ℕ) (c : Joystick)
    → bit_and c.reset 0x01 ≡ 0
    → k < n
    → c.index + k < 256
    → get_elem? (reads n c) k ≡ some (bit_and (shr c.buttons (c.index + k)) 0x01)
unfolding reads read
reads_from zero k c low hk hi = absurd (omega arith)
reads_from (suc n) zero c low hk hi =
    ap (λ t. some (bit_and (shr c.buttons t) 0x01)) {x = c.index} {y = c.index + 0} (omega arith)
reads_from (suc n) (suc k) c low hk hi =
    let moved = record c { index = u8 (c.index + 1) } in
    let free : (bit_and c.reset 0x01 == 1) ≡ false = ground arith in
    rw free (
      reads_from n k moved low (omega arith) (omega arith)
      ∙ ap (λ t. some (bit_and (shr c.buttons t) 0x01)) {x = u8 (c.index + 1) + k}
          {y = c.index + suc k} (omega arith))

-- A joystick at its first button whose strobe is held stays there.
reads_held :
    (n k : ℕ) (c : Joystick)
    → (bit_and c.reset 0x01 == 1) ≡ true
    → c.index ≡ 0
    → k < n
    → get_elem? (reads n c) k ≡ some (bit_and c.buttons 0x01)
unfolding reads read
reads_held zero k c high first hk = absurd (omega arith)
reads_held (suc n) zero c high first hk =
    ap (λ t. some (bit_and (shr c.buttons t) 0x01)) first
    ∙ ap (λ t. some (bit_and t 0x01)) {x = shr c.buttons 0} {y = c.buttons} (omega arith)
reads_held (suc n) (suc k) c high first hk =
    rw high (reads_held n k (record c { index = 0 }) high refl (omega arith))

-- After the strobe, the write of a byte with bit 0 and of one without it, read number `k` gives
-- button `k` of those held, counted from bit 0, for every `k` below 256.
pub reads-strobe :
    (c : Joystick) (up down n k : ℕ)
    → bit_and up 0x01 ≡ 1
    → bit_and down 0x01 ≡ 0
    → k < n
    → k < 256
    → get_elem? (reads n (write (write c up) down)) k ≡ some (bit_and (shr c.buttons k) 0x01)
unfolding write
reads-strobe c up down n k hu hd hk hw =
    let struck : (bit_and up 0x01 == 1) ≡ true = ground arith in
    let free : (bit_and down 0x01 == 1) ≡ false = ground arith in
    rw (struck, free)
      (reads_from n k (record c { index = 0; reset = down }) hd hk (omega arith)
        ∙ ap (λ t. some (bit_and (shr c.buttons t) 0x01)) {x = 0 + k} {y = k} (omega arith))

-- While the strobe is held, every read gives the first button.
pub reads-held :
    (c : Joystick) (up n k : ℕ)
    → bit_and up 0x01 ≡ 1
    → k < n
    → get_elem? (reads n (write c up)) k ≡ some (bit_and c.buttons 0x01)
unfolding write
reads-held c up n k hu hk =
    let struck : (bit_and up 0x01 == 1) ≡ true = ground arith in
    rw struck (reads_held n k (record c { index = 0; reset = up }) struck refl hk)
