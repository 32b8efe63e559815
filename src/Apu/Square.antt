-- ===== src/Apu/Square.antt =====
-- apu/square.go, a pulse channel.
use dendy.Prelude.{
  ℕ, ◌+◌, ◌-◌, ◌*◌, bit_and, bit_or, u8, u16, shl, shr, ltb, ◌==◌, if◌then◌else◌, Bool, true, false,
  not, ◌&&◌, ◌||◌, List, [], ◌∷◌, get_or,
}
use dendy.Binario.Writer.{Writer, write_uint8, write_uint16, write_bool}
use dendy.Binario.Reader.{Reader, read_uint8_to, read_uint16_to, read_bool_to}
use dendy.Apu.Envelope
use dendy.Apu.Envelope.{Envelope}

-- `lengthTable` of apu/apu.go, by a byte shifted to 5 bits.
abbrev pub length_table : List ℕ
length_table =
    10 ∷ 254 ∷ 20 ∷ 2 ∷ 40 ∷ 4 ∷ 80 ∷ 6 ∷ 160 ∷ 8 ∷ 60 ∷ 10 ∷ 14 ∷ 12 ∷ 26 ∷ 14 ∷ 12 ∷ 16 ∷ 24 ∷ 18
    ∷ 48 ∷ 20 ∷ 96 ∷ 22 ∷ 192 ∷ 24 ∷ 72 ∷ 26 ∷ 16 ∷ 28 ∷ 32 ∷ 30 ∷ []

abbrev square_duty_table : List ℕ
square_duty_table = 0x40 ∷ 0x60 ∷ 0x78 ∷ 0x9F ∷ []

pub record Square : Type 0 where
  pub enabled : Bool
  pub is_pulse1 : Bool
  pub sample : ℕ  -- uint8
  pub volume : ℕ  -- uint8
  pub duty : ℕ  -- uint8
  pub duty_bit : ℕ  -- uint8
  pub envelope : Envelope
  pub timer_load : ℕ  -- uint16
  pub timer : ℕ  -- uint16
  pub length_halt : Bool
  pub length : ℕ  -- uint8
  pub sweep_enabled : Bool
  pub sweep_load : ℕ  -- uint8
  pub sweep_negate : Bool
  pub sweep_shift : ℕ  -- uint8
  pub sweep_reload : Bool
  pub sweep : ℕ  -- uint8

unfoldable pub reset : Square → Square
reset s = record s {
  enabled = false;
  sample = 0;
  volume = 0;
  is_pulse1 = false;
  duty = 0;
  envelope = Envelope.reset s.envelope;
  timer = 0;
  timer_load = 0;
  length = 0;
  length_halt = false;
  sweep_enabled = false;
  sweep_reload = false;
  sweep_negate = false;
  sweep_shift = 0;
  sweep_load = 0;
  sweep = 0;
}

unfoldable pub write_control : Square → ℕ → Square
write_control s value =
    let halt = bit_and (shr value 5) 1 == 1 in
    record s {
      volume = bit_and value 0x0F;
      length_halt = halt;
      duty = get_or square_duty_table (bit_and (shr value 6) 3) 0;
      envelope = record s.envelope {
        loop = halt;
        enabled = bit_and (shr value 4) 1 == 0;
        counter_load = bit_and value 0x0F;
        start = true;
      };
    }

unfoldable pub write_sweep : Square → ℕ → Square
write_sweep s value = record s {
  sweep_enabled = not (bit_and value 0x80 == 0);
  sweep_negate = not (bit_and value 0x08 == 0);
  sweep_load = bit_and (shr value 4) 0x07;
  sweep_shift = bit_and value 0x07;
  sweep_reload = true;
}

unfoldable pub write_length : Square → ℕ → Square
write_length s value = record s {
  timer_load = bit_or (bit_and s.timer_load 0x00FF) (u16 (shl (bit_and value 0x07) 8));
  length = get_or length_table (shr value 3) 0;
  envelope = record s.envelope { start = true };
  duty_bit = 0;
}

unfoldable pub write : Square → ℕ → ℕ → Square
write s addr value =
    let reg = bit_and addr 0x0003 in
    if reg == 0
    then write_control s value
    else if reg == 1
    then write_sweep s value
    else if reg == 2
    then record s { timer_load = bit_or (bit_and s.timer_load 0xFF00) value }
    else write_length s value

unfoldable pub tick_envelope : Square → Square
tick_envelope s = record s { envelope = Envelope.tick s.envelope }

-- The period after a step of the sweep.
unfoldable pub swept : Square → ℕ
swept s =
    let change = shr s.timer_load s.sweep_shift in
    if s.sweep_negate
    then (let lower = s.timer_load - change in if s.is_pulse1 then u16 (lower + 1) else lower)
    else u16 (s.timer_load + change)

unfoldable pub tick_sweep : Square → Square
tick_sweep s =
    if s.sweep_reload
    then record s { sweep = s.sweep_load; sweep_reload = false }
    else if ltb 0 s.sweep
    then record s { sweep = s.sweep - 1 }
    else let reloaded = record s { sweep = s.sweep_load } in
      if s.sweep_enabled && ltb 0 s.sweep_shift
      then record reloaded { timer_load = swept s }
      else reloaded

unfoldable pub tick_length : Square → Square
tick_length s =
    if not s.length_halt && ltb 0 s.length then record s { length = s.length - 1 } else s

unfoldable pub tick_timer : Square → Square
tick_timer s =
    if ltb 0 s.timer
    then record s { timer = s.timer - 1 }
    else let duty_bit = bit_and (s.duty_bit + 1) 0x07 in
      record s {
        timer = s.timer_load;
        duty_bit = duty_bit;
        sample = bit_and (shr s.duty duty_bit) 1;
      }

unfoldable pub output : Square → ℕ
output s =
    if not s.enabled || s.length == 0 || ltb s.timer 8
    then 0
    else u8 (s.sample * (if s.envelope.enabled then s.envelope.volume else s.volume))

unfoldable pub save_state : Square → Writer → Writer
save_state s w =
    let w1 = Envelope.save_state s.envelope w in
    let w2 = write_bool s.enabled w1 in
    let w3 = write_bool s.is_pulse1 w2 in
    let w4 = write_uint8 s.sample w3 in
    let w5 = write_uint8 s.volume w4 in
    let w6 = write_uint8 s.duty w5 in
    let w7 = write_uint8 s.duty_bit w6 in
    let w8 = write_uint16 s.timer_load w7 in
    let w9 = write_uint16 s.timer w8 in
    let w10 = write_uint8 s.length w9 in
    let w11 = write_bool s.length_halt w10 in
    let w12 = write_bool s.sweep_enabled w11 in
    let w13 = write_bool s.sweep_negate w12 in
    let w14 = write_uint8 s.sweep_shift w13 in
    let w15 = write_uint8 s.sweep_load w14 in
    let w16 = write_bool s.sweep_reload w15 in write_uint8 s.sweep w16

unfoldable pub load_state : Square → Reader → Square × Bool × Reader
load_state s r =
    let (envelope, ok1, r1) = Envelope.load_state s.envelope r in
    let (enabled, ok2, r2) = read_bool_to s.enabled r1 in
    let (is_pulse1, ok3, r3) = read_bool_to s.is_pulse1 r2 in
    let (sample, ok4, r4) = read_uint8_to s.sample r3 in
    let (volume, ok5, r5) = read_uint8_to s.volume r4 in
    let (duty, ok6, r6) = read_uint8_to s.duty r5 in
    let (duty_bit, ok7, r7) = read_uint8_to s.duty_bit r6 in
    let (timer_load, ok8, r8) = read_uint16_to s.timer_load r7 in
    let (timer, ok9, r9) = read_uint16_to s.timer r8 in
    let (length, ok10, r10) = read_uint8_to s.length r9 in
    let (length_halt, ok11, r11) = read_bool_to s.length_halt r10 in
    let (sweep_enabled, ok12, r12) = read_bool_to s.sweep_enabled r11 in
    let (sweep_negate, ok13, r13) = read_bool_to s.sweep_negate r12 in
    let (sweep_shift, ok14, r14) = read_uint8_to s.sweep_shift r13 in
    let (sweep_load, ok15, r15) = read_uint8_to s.sweep_load r14 in
    let (sweep_reload, ok16, r16) = read_bool_to s.sweep_reload r15 in
    let (sweep, ok17, r17) = read_uint8_to s.sweep r16 in
    (
      record s {
        envelope = envelope;
        enabled = enabled;
        is_pulse1 = is_pulse1;
        sample = sample;
        volume = volume;
        duty = duty;
        duty_bit = duty_bit;
        timer_load = timer_load;
        timer = timer;
        length = length;
        length_halt = length_halt;
        sweep_enabled = sweep_enabled;
        sweep_negate = sweep_negate;
        sweep_shift = sweep_shift;
        sweep_load = sweep_load;
        sweep_reload = sweep_reload;
        sweep = sweep;
      },
      ok1 && ok2 && ok3 && ok4 && ok5 && ok6 && ok7 && ok8 && ok9 && ok10 && ok11 && ok12 && ok13
          && ok14 && ok15 && ok16 && ok17,
      r17,
    )
