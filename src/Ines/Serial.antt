-- ===== src/Ines/Serial.antt =====
-- The serial port of ines/mapper001.go: five writes of one bit each load a register.
use dendy.Prelude.{
  ℕ, suc, ◌+◌, ◌*◌, ◌/◌, ◌%◌, ◌^◌, ◌<◌, ◌≡◌, ap, ap₂, ◌∙◌, arith, bit_and, bit_or, shl, shr, u8,
  ◌==◌, true, false,
}
use dendy.Prelude.Bits.{and_bit0, or_disjoint, or_comm}
use dendy.Ines.Mapper1.{Mapper1, write_register, shift_in, load_register}

-- The mapper with another shift register.
abbrev pub shifting : Mapper1 → ℕ → ℕ → Mapper1
shifting m register count = record m { shift_register = register; write_count = count }

-- The shift register after a bit.
abbrev pushed : ℕ → ℕ → ℕ
pushed register value = register / 2 + value % 2 * 16

pushed_bits :
    (register value : ℕ)
    → register < 32
    → bit_or (shr register 1) (u8 (shl (bit_and value 1) 4)) ≡ pushed register value
pushed_bits register value h =
    let cut : u8 (shl (bit_and value 1) 4) ≡ value % 2 * 2 ^ 4 = omega (arith, and_bit0 value) in
    ap (bit_or (shr register 1)) cut
    ∙ or_comm (shr register 1) (value % 2 * 2 ^ 4)
    ∙ or_disjoint 4 (value % 2) (shr register 1) (omega arith)
    ∙ omega arith

shift_step :
    (m : Mapper1) (register count addr value : ℕ)
    → register < 32
    → count < 4
    → bit_and value 0x80 ≡ 0
    → load_register (shifting m register count) addr value
      ≡ shifting m (pushed register value) (suc count)
unfolding load_register shift_in
shift_step m register count addr value h c v =
    let clear : (bit_and value 0x80 == 0) ≡ true = ground arith in
    let more : (u8 (count + 1) == 5) ≡ false = ground arith in
    let small : u8 (count + 1) ≡ suc count = omega arith in
    rw (clear, more) (ap₂ (shifting m) (pushed_bits register value h) small)

-- A register is loaded whatever the shift register holds.
shifting-write_register :
    (m : Mapper1) (register count addr value : ℕ)
    → shifting (write_register (shifting m register count) addr value) 0x10 0
      ≡ shifting (write_register m addr value) 0x10 0
unfolding write_register
shifting-write_register m register count addr value = ground arith

last_step :
    (m : Mapper1) (register addr value : ℕ)
    → register < 32
    → bit_and value 0x80 ≡ 0
    → load_register (shifting m register 4) addr value
      ≡ shifting (write_register m addr (pushed register value)) 0x10 0
unfolding load_register shift_in write_register
last_step m register addr value h v =
    let clear : (bit_and value 0x80 == 0) ≡ true = ground arith in
    let word = pushed_bits register value h in
    rw (clear, word)
      (shifting-write_register m (pushed register value) 5 addr (pushed register value))

-- After a reset of the shift register, or after a register was loaded, five writes whose bit 7 is
-- clear load the register of the last address with bit 0 of each, the first one lowest, and leave
-- the shift register as it was; the four addresses before do not matter.
pub load_register-five :
    (m : Mapper1) (a0 a1 a2 a3 a4 v0 v1 v2 v3 v4 : ℕ)
    → m.shift_register ≡ 0x10
    → m.write_count ≡ 0
    → bit_and v0 0x80 ≡ 0
    → bit_and v1 0x80 ≡ 0
    → bit_and v2 0x80 ≡ 0
    → bit_and v3 0x80 ≡ 0
    → bit_and v4 0x80 ≡ 0
    → load_register
        (load_register (load_register (load_register (load_register m a0 v0) a1 v1) a2 v2) a3 v3)
        a4
        v4
      ≡ shifting
          (write_register m a4
            (v0 % 2 + 2 * (v1 % 2) + 4 * (v2 % 2) + 8 * (v3 % 2) + 16 * (v4 % 2)))
          0x10
          0
load_register-five m a0 a1 a2 a3 a4 v0 v1 v2 v3 v4 s c h0 h1 h2 h3 h4 =
    let r1 = pushed 0x10 v0 in
    let r2 = pushed r1 v1 in
    let r3 = pushed r2 v2 in
    let r4 = pushed r3 v3 in
    ap
      (λ t.
        load_register
          (load_register (load_register (load_register (load_register t a0 v0) a1 v1) a2 v2) a3 v3)
          a4 v4)
      (ap₂ (shifting m) s c)
    ∙ ap
        (λ t.
          load_register (load_register (load_register (load_register t a1 v1) a2 v2) a3 v3) a4 v4)
        (shift_step m 0x10 0 a0 v0 (omega arith) (omega arith) h0)
    ∙ ap (λ t. load_register (load_register (load_register t a2 v2) a3 v3) a4 v4)
        (shift_step m r1 1 a1 v1 (omega arith) (omega arith) h1)
    ∙ ap (λ t. load_register (load_register t a3 v3) a4 v4)
        (shift_step m r2 2 a2 v2 (omega arith) (omega arith) h2)
    ∙ ap (λ t. load_register t a4 v4) (shift_step m r3 3 a3 v3 (omega arith) (omega arith) h3)
    ∙ last_step m r4 a4 v4 (omega arith) h4
    ∙ ap (λ t. shifting (write_register m a4 t) 0x10 0) {x = pushed r4 v4}
        {y = v0 % 2 + 2 * (v1 % 2) + 4 * (v2 % 2) + 8 * (v3 % 2) + 16 * (v4 % 2)} (omega arith)
