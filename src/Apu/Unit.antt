-- ===== src/Apu/Unit.antt =====
-- apu/apu.go, without the mixer and the filters, which compute with floating-point numbers.
use dendy.Prelude.{
  ℕ, ◌+◌, ◌%◌, bit_and, bit_or, u64, shr, ltb, leb, ◌==◌, if◌then◌else◌, Bool, true, false, not,
  ◌&&◌, ◌||◌,
}
use dendy.Binario.Writer.{Writer, write_uint8, write_uint64, write_bool}
use dendy.Binario.Reader.{Reader, read_uint8_to, read_uint64_to, read_bool_to}
use dendy.Apu.Square
use dendy.Apu.Square.{Square}
use dendy.Apu.Triangle
use dendy.Apu.Triangle.{Triangle}
use dendy.Apu.Noise
use dendy.Apu.Noise.{Noise}
use dendy.Apu.Dmc
use dendy.Apu.Dmc.{Dmc}

pub record Apu : Type 0 where
  pub enabled : Bool
  pub pending_irq : Bool
  pub mode : ℕ  -- uint8
  pub cycle : ℕ  -- uint64
  pub frame : ℕ  -- uint64
  pub pulse1 : Square
  pub pulse2 : Square
  pub noise : Noise
  pub dmc : Dmc
  pub triangle : Triangle
  pub irq_disable : Bool
  pub frame_irq : Bool

unfoldable pub reset : Apu → Apu
reset a = record a {
  mode = 0;
  cycle = 0;
  frame = 0;
  dmc = Dmc.reset a.dmc;
  noise = Noise.reset a.noise;
  pulse1 = record (Square.reset a.pulse1) { is_pulse1 = true };
  pulse2 = Square.reset a.pulse2;
  triangle = Triangle.reset a.triangle;
}

-- `status |= 1 << bit` under a condition.
abbrev with_bit : Bool → ℕ → ℕ → ℕ
with_bit set bit status = if set then bit_or status bit else status

unfoldable pub read : Apu → ℕ → ℕ × Apu
read a addr =
    if addr == 0x4015
    then (
      with_bit a.dmc.irq_pending 0x80 (
          with_bit a.frame_irq 0x40 (
            with_bit (ltb 0 a.dmc.length) 0x10 (
              with_bit (ltb 0 a.noise.length) 0x08 (
                with_bit (ltb 0 a.triangle.length) 0x04 (
                  with_bit (ltb 0 a.pulse2.length) 0x02
                    (with_bit (ltb 0 a.pulse1.length) 0x01 0)))))),
      record a { frame_irq = false },
    )
    else (0, a)

unfoldable pub write_enables : Apu → ℕ → Apu
write_enables a value = record a {
  pulse1 = record a.pulse1 { enabled = not (bit_and value 0x01 == 0) };
  pulse2 = record a.pulse2 { enabled = not (bit_and value 0x02 == 0) };
  triangle = record a.triangle { enabled = not (bit_and value 0x03 == 0) };
  noise = record a.noise { enabled = not (bit_and value 0x04 == 0) };
  dmc = Dmc.write a.dmc 0x4015 value;
}

unfoldable pub write : Apu → ℕ → ℕ → Apu
write a addr value =
    if leb 0x4000 addr && leb addr 0x4003
    then record a { pulse1 = Square.write a.pulse1 addr value }
    else if leb 0x4004 addr && leb addr 0x4007
    then record a { pulse2 = Square.write a.pulse2 addr value }
    else if leb 0x4008 addr && leb addr 0x400B
    then record a { triangle = Triangle.write a.triangle addr value }
    else if leb 0x400C addr && leb addr 0x400F
    then record a { noise = Noise.write a.noise addr value }
    else if leb 0x4010 addr && leb addr 0x4013
    then record a { dmc = Dmc.write a.dmc addr value }
    else if addr == 0x4015
    then write_enables a value
    else if addr == 0x4017
    then record a {
      frame = 0;
      mode = shr (bit_and value 0x80) 7;
      irq_disable = not (bit_and value 0x40 == 0);
    }
    else a

unfoldable pub quarter_frame : Apu → Bool
quarter_frame a =
    a.frame == 3728
    || a.frame == 7456
    || a.frame == 11185
    || (a.frame == (if a.mode == 0 then 14914 else 18640))

unfoldable pub half_frame : Apu → Bool
half_frame a = a.frame == 7456 || (a.frame == (if a.mode == 0 then 14914 else 18640))

unfoldable pub max_frame : Apu → ℕ
max_frame a = if a.mode == 0 then 14915 else 18641

unfoldable pub tick_quarter : Apu → Apu
tick_quarter a = record a {
  pulse1 = Square.tick_envelope a.pulse1;
  pulse2 = Square.tick_envelope a.pulse2;
  noise = Noise.tick_envelope a.noise;
  triangle = Triangle.tick_linear a.triangle;
}

unfoldable pub tick_half : Apu → Apu
tick_half a =
    let counted = record a {
      pulse1 = Square.tick_sweep (Square.tick_length a.pulse1);
      pulse2 = Square.tick_sweep (Square.tick_length a.pulse2);
      noise = Noise.tick_length a.noise;
      triangle = Triangle.tick_length a.triangle;
    } in
    if a.mode == 0 && not a.irq_disable
    then record counted { pending_irq = true; frame_irq = true }
    else counted

module _ {M : Type 0} (dma_callback : M → ℕ → ℕ × M) where
  unfoldable pub tick_timers : Apu → M → Apu × M
  tick_timers a m =
      let (dmc, m1) = Dmc.tick_timer dma_callback a.dmc m in
      (
        record a {
          pulse1 = Square.tick_timer a.pulse1;
          pulse2 = Square.tick_timer a.pulse2;
          noise = Noise.tick_timer a.noise;
          dmc = dmc;
        },
        m1,
      )

  -- The part at half the processor's speed.
  unfoldable pub tick_frame : Apu → M → Apu × M
  tick_frame a m =
      let quartered = if quarter_frame a then tick_quarter a else a in
      let halved = if half_frame a then tick_half quartered else quartered in
      let (timed, m1) = tick_timers halved m in
      let frame = u64 (a.frame + 1) in
      (record timed { frame = if frame == max_frame a then 0 else frame }, m1)

  unfoldable pub tick : Apu → M → Apu × M
  tick a m =
      if not a.enabled
      then (a, m)
      else let clocked = record a { triangle = Triangle.tick_timer a.triangle } in
        let (ticked, m1) = if a.cycle % 2 == 0 then tick_frame clocked m else (clocked, m) in
        (record ticked { cycle = u64 (a.cycle + 1) }, m1)

unfoldable pub save_state : Apu → Writer → Writer
save_state a w =
    let w1 = Square.save_state a.pulse1 w in
    let w2 = Square.save_state a.pulse2 w1 in
    let w3 = Triangle.save_state a.triangle w2 in
    let w4 = Noise.save_state a.noise w3 in
    let w5 = Dmc.save_state a.dmc w4 in
    let w6 = write_bool a.pending_irq w5 in
    let w7 = write_uint8 a.mode w6 in
    let w8 = write_uint64 a.cycle w7 in
    let w9 = write_uint64 a.frame w8 in
    let w10 = write_bool a.irq_disable w9 in write_bool a.frame_irq w10

unfoldable pub load_state : Apu → Reader → Apu × Bool × Reader
load_state a r =
    let (pulse1, ok1, r1) = Square.load_state a.pulse1 r in
    let (pulse2, ok2, r2) = Square.load_state a.pulse2 r1 in
    let (triangle, ok3, r3) = Triangle.load_state a.triangle r2 in
    let (noise, ok4, r4) = Noise.load_state a.noise r3 in
    let (dmc, ok5, r5) = Dmc.load_state a.dmc r4 in
    let (pending_irq, ok6, r6) = read_bool_to a.pending_irq r5 in
    let (mode, ok7, r7) = read_uint8_to a.mode r6 in
    let (cycle, ok8, r8) = read_uint64_to a.cycle r7 in
    let (frame, ok9, r9) = read_uint64_to a.frame r8 in
    let (irq_disable, ok10, r10) = read_bool_to a.irq_disable r9 in
    let (frame_irq, ok11, r11) = read_bool_to a.frame_irq r10 in
    (
      record a {
        pulse1 = pulse1;
        pulse2 = pulse2;
        triangle = triangle;
        noise = noise;
        dmc = dmc;
        pending_irq = pending_irq;
        mode = mode;
        cycle = cycle;
        frame = frame;
        irq_disable = irq_disable;
        frame_irq = frame_irq;
      },
      ok1 && ok2 && ok3 && ok4 && ok5 && ok6 && ok7 && ok8 && ok9 && ok10 && ok11,
      r11,
    )
