-- ===== src/Apu/Dmc.antt =====
-- apu/dmc.go, the sample channel.
use dendy.Prelude.{
  ℕ, ◌+◌, ◌-◌, bit_and, bit_or, u8, u16, shl, shr, ltb, leb, ◌==◌, if◌then◌else◌, Bool, true, false,
  not, ◌&&◌, List, [], ◌∷◌, get_or,
}
use dendy.Binario.Writer.{Writer, write_uint8, write_uint16, write_bool}
use dendy.Binario.Reader.{Reader, read_uint8_to, read_uint16_to, read_bool_to}

abbrev dmc_timer_table : List ℕ
dmc_timer_table =
    214 ∷ 190 ∷ 170 ∷ 160 ∷ 143 ∷ 127 ∷ 113 ∷ 107 ∷ 95 ∷ 80 ∷ 71 ∷ 64 ∷ 53 ∷ 42 ∷ 36 ∷ 27 ∷ []

pub record Dmc : Type 0 where
  pub enabled : Bool
  pub loop : Bool
  pub irq_enabled : Bool
  pub irq_pending : Bool
  pub timer_load : ℕ  -- uint16
  pub timer : ℕ  -- uint16
  pub addr_load : ℕ  -- uint16
  pub addr : ℕ  -- uint16
  pub length_load : ℕ  -- uint16
  pub length : ℕ  -- uint16
  pub bits_left : ℕ  -- uint8
  pub shifter : ℕ  -- uint8
  pub buffer : ℕ  -- uint8
  pub sample : ℕ  -- uint8
  pub is_empty : Bool
  pub is_silent : Bool

unfoldable pub reset : Dmc → Dmc
reset d = record {
  enabled = false;
  loop = false;
  irq_enabled = false;
  irq_pending = false;
  timer = 0;
  timer_load = 0;
  addr_load = 0;
  addr = 0;
  length_load = 0;
  length = 0;
  bits_left = 0;
  shifter = 0;
  buffer = 0;
  sample = 0;
  is_empty = true;
  is_silent = true;
}

unfoldable pub write_rate : Dmc → ℕ → Dmc
write_rate d value =
    let irq_enabled = not (bit_and (shr value 7) 1 == 0) in
    record d {
      timer_load = get_or dmc_timer_table (bit_and value 0x0F) 0;
      irq_enabled = irq_enabled;
      loop = not (bit_and (shr value 6) 1 == 0);
      irq_pending = irq_enabled && d.irq_pending;
    }

unfoldable pub write_enable : Dmc → ℕ → Dmc
write_enable d value =
    let enabled = not (bit_and (shr value 4) 1 == 0) in
    let switched = record d { enabled = enabled; irq_pending = false } in
    if enabled
    then (if d.length == 0
        then record switched { length = d.length_load; addr = d.addr_load }
        else switched)
    else record switched { length = 0 }

unfoldable pub write : Dmc → ℕ → ℕ → Dmc
write d addr value =
    if addr == 0x4010
    then write_rate d value
    else if addr == 0x4011
    then record d { sample = bit_and value 0x7F }
    else if addr == 0x4012
    then record d { addr_load = bit_or 0xC000 (u16 (shl value 6)) }
    else if addr == 0x4013
    then record d { length_load = u16 (shl value 4 + 1) }
    else if addr == 0x4015
    then write_enable d value
    else d

-- The sample after a bit of the shifter.
unfoldable pub next_sample : Dmc → ℕ
next_sample d =
    if d.is_silent
    then d.sample
    else if bit_and d.shifter 1 == 0
    then (if leb 0x02 d.sample then d.sample - 2 else d.sample)
    else (if leb d.sample 0x7D then d.sample + 2 else d.sample)

unfoldable pub tick_output : Dmc → Dmc
tick_output d =
    if ltb 0 d.timer
    then record d { timer = d.timer - 1 }
    else let bits_left = u8 (d.bits_left + 255) in
      let shifted = record d {
        sample = next_sample d;
        timer = d.timer_load;
        shifter = shr d.shifter 1;
        bits_left = bits_left;
      } in
      if bits_left == 0
      then record shifted {
        bits_left = 8;
        shifter = d.buffer;
        is_silent = d.is_empty;
        is_empty = true;
      }
      else shifted

-- The byte comes from the console, whose state `M` the callback may change.
module _ {M : Type 0} (dma_callback : M → ℕ → ℕ × M) where
  unfoldable pub tick_reader : Dmc → M → Dmc × M
  tick_reader d m =
      if ltb 0 d.length && d.is_empty
      then (let (buffer, m1) = dma_callback m d.addr in
          let fetched = record d {
            buffer = buffer;
            addr = bit_or (u16 (d.addr + 1)) 0x8000;
            is_empty = false;
            length = d.length - 1;
          } in
          if fetched.length == 0
          then (
            if d.loop
                then record fetched { length = d.length_load; addr = d.addr_load }
                else fetched,
            m1,
          )
          else (if d.irq_enabled then record fetched { irq_pending = true } else fetched, m1))
      else (d, m)

  unfoldable pub tick_timer : Dmc → M → Dmc × M
  tick_timer d m = tick_reader (tick_output d) m

unfoldable pub output : Dmc → ℕ
output d = d.sample

unfoldable pub save_state : Dmc → Writer → Writer
save_state d w =
    let w1 = write_bool d.enabled w in
    let w2 = write_bool d.loop w1 in
    let w3 = write_bool d.irq_enabled w2 in
    let w4 = write_bool d.irq_pending w3 in
    let w5 = write_uint16 d.timer_load w4 in
    let w6 = write_uint16 d.timer w5 in
    let w7 = write_uint16 d.addr_load w6 in
    let w8 = write_uint16 d.addr w7 in
    let w9 = write_uint16 d.length_load w8 in
    let w10 = write_uint16 d.length w9 in
    let w11 = write_uint8 d.bits_left w10 in
    let w12 = write_uint8 d.shifter w11 in
    let w13 = write_uint8 d.buffer w12 in
    let w14 = write_uint8 d.sample w13 in
    let w15 = write_bool d.is_empty w14 in write_bool d.is_silent w15

unfoldable pub load_state : Dmc → Reader → Dmc × Bool × Reader
load_state d r =
    let (enabled, ok1, r1) = read_bool_to d.enabled r in
    let (loop, ok2, r2) = read_bool_to d.loop r1 in
    let (irq_enabled, ok3, r3) = read_bool_to d.irq_enabled r2 in
    let (irq_pending, ok4, r4) = read_bool_to d.irq_pending r3 in
    let (timer_load, ok5, r5) = read_uint16_to d.timer_load r4 in
    let (timer, ok6, r6) = read_uint16_to d.timer r5 in
    let (addr_load, ok7, r7) = read_uint16_to d.addr_load r6 in
    let (addr, ok8, r8) = read_uint16_to d.addr r7 in
    let (length_load, ok9, r9) = read_uint16_to d.length_load r8 in
    let (length, ok10, r10) = read_uint16_to d.length r9 in
    let (bits_left, ok11, r11) = read_uint8_to d.bits_left r10 in
    let (shifter, ok12, r12) = read_uint8_to d.shifter r11 in
    let (buffer, ok13, r13) = read_uint8_to d.buffer r12 in
    let (sample, ok14, r14) = read_uint8_to d.sample r13 in
    let (is_empty, ok15, r15) = read_bool_to d.is_empty r14 in
    let (is_silent, ok16, r16) = read_bool_to d.is_silent r15 in
    (
      record d {
        enabled = enabled;
        loop = loop;
        irq_enabled = irq_enabled;
        irq_pending = irq_pending;
        timer_load = timer_load;
        timer = timer;
        addr_load = addr_load;
        addr = addr;
        length_load = length_load;
        length = length;
        bits_left = bits_left;
        shifter = shifter;
        buffer = buffer;
        sample = sample;
        is_empty = is_empty;
        is_silent = is_silent;
      },
      ok1 && ok2 && ok3 && ok4 && ok5 && ok6 && ok7 && ok8 && ok9 && ok10 && ok11 && ok12 && ok13
          && ok14 && ok15 && ok16,
      r16,
    )
