-- ===== src/Apu/Triangle.antt =====
-- apu/triangle.go.
use dendy.Prelude.{
  ℕ, ◌+◌, ◌-◌, bit_and, bit_or, bit_xor, u16, shl, shr, ltb, ◌==◌, if◌then◌else◌, Bool, true, false,
  not, ◌&&◌, ◌||◌, get_or,
}
use dendy.Binario.Writer.{Writer, write_uint8, write_uint16, write_bool}
use dendy.Binario.Reader.{Reader, read_uint8_to, read_uint16_to, read_bool_to}
use dendy.Apu.Square.{length_table}

pub record Triangle : Type 0 where
  pub enabled : Bool
  pub sample : ℕ  -- uint8
  pub sequence : ℕ  -- uint8
  pub timer_load : ℕ  -- uint16
  pub timer : ℕ  -- uint16
  pub length_halt : Bool
  pub length : ℕ  -- uint8
  pub linear_enabled : Bool
  pub linear_reset : Bool
  pub linear_load : ℕ  -- uint8
  pub linear : ℕ  -- uint8

unfoldable pub reset : Triangle → Triangle
reset t = record {
  enabled = false;
  sample = 0;
  sequence = 0;
  timer_load = 0;
  timer = 0;
  length_halt = false;
  length = 0;
  linear_enabled = false;
  linear_reset = false;
  linear_load = 0;
  linear = 0;
}

unfoldable pub write : Triangle → ℕ → ℕ → Triangle
write t addr value =
    if addr == 0x4008
    then (let low = bit_and value 0x80 == 0 in
        record t { linear_load = bit_and value 0x7F; length_halt = low; linear_enabled = low })
    else if addr == 0x400A
    then record t { timer_load = bit_or (bit_and t.timer_load 0xFF00) value }
    else if addr == 0x400B
    then record t {
      timer_load = bit_or (bit_and t.timer_load 0x00FF) (u16 (shl (bit_and value 0x07) 8));
      length = get_or length_table (shr value 3) 0;
      linear_reset = true;
    }
    else t

unfoldable pub tick_length : Triangle → Triangle
tick_length t =
    if not t.length_halt && ltb 0 t.length then record t { length = t.length - 1 } else t

unfoldable pub tick_linear : Triangle → Triangle
tick_linear t =
    let counted =
      if t.linear_reset
      then record t { linear = t.linear_load }
      else if ltb 0 t.linear
      then record t { linear = t.linear - 1 }
      else t in
    if t.linear_enabled then record counted { linear_reset = false } else counted

unfoldable pub tick_timer : Triangle → Triangle
tick_timer t =
    if t.length == 0 || t.linear == 0 || ltb t.timer_load 3
    then t
    else if ltb 0 t.timer
    then record t { timer = t.timer - 1 }
    else let sequence = bit_and (t.sequence + 1) 0x1F in
      record t {
        sequence = sequence;
        timer = t.timer_load;
        sample = if bit_and sequence 0x10 == 0 then bit_xor sequence 0x1F else sequence;
      }

unfoldable pub output : Triangle → ℕ
output t = if t.enabled then t.sample else 0

unfoldable pub save_state : Triangle → Writer → Writer
save_state t w =
    let w1 = write_bool t.enabled w in
    let w2 = write_uint8 t.sample w1 in
    let w3 = write_uint8 t.sequence w2 in
    let w4 = write_uint16 t.timer_load w3 in
    let w5 = write_uint16 t.timer w4 in
    let w6 = write_uint8 t.length w5 in
    let w7 = write_bool t.length_halt w6 in
    let w8 = write_bool t.linear_enabled w7 in
    let w9 = write_uint8 t.linear_load w8 in
    let w10 = write_uint8 t.linear w9 in write_bool t.linear_reset w10

unfoldable pub load_state : Triangle → Reader → Triangle × Bool × Reader
load_state t r =
    let (enabled, ok1, r1) = read_bool_to t.enabled r in
    let (sample, ok2, r2) = read_uint8_to t.sample r1 in
    let (sequence, ok3, r3) = read_uint8_to t.sequence r2 in
    let (timer_load, ok4, r4) = read_uint16_to t.timer_load r3 in
    let (timer, ok5, r5) = read_uint16_to t.timer r4 in
    let (length, ok6, r6) = read_uint8_to t.length r5 in
    let (length_halt, ok7, r7) = read_bool_to t.length_halt r6 in
    let (linear_enabled, ok8, r8) = read_bool_to t.linear_enabled r7 in
    let (linear_load, ok9, r9) = read_uint8_to t.linear_load r8 in
    let (linear, ok10, r10) = read_uint8_to t.linear r9 in
    let (linear_reset, ok11, r11) = read_bool_to t.linear_reset r10 in
    (
      record t {
        enabled = enabled;
        sample = sample;
        sequence = sequence;
        timer_load = timer_load;
        timer = timer;
        length = length;
        length_halt = length_halt;
        linear_enabled = linear_enabled;
        linear_load = linear_load;
        linear = linear;
        linear_reset = linear_reset;
      },
      ok1 && ok2 && ok3 && ok4 && ok5 && ok6 && ok7 && ok8 && ok9 && ok10 && ok11,
      r11,
    )
