-- ===== src/Apu/Noise.antt =====
-- apu/noise.go.
use dendy.Prelude.{
  ℕ, ◌-◌, ◌*◌, bit_and, bit_or, bit_xor, u8, u16, shl, shr, ltb, ◌==◌, if◌then◌else◌, Bool, false,
  not, ◌&&◌, ◌||◌, List, [], ◌∷◌, get_or,
}
use dendy.Binario.Writer.{Writer, write_uint8, write_uint16, write_bool}
use dendy.Binario.Reader.{Reader, read_uint8_to, read_uint16_to, read_bool_to}
use dendy.Apu.Envelope
use dendy.Apu.Envelope.{Envelope}
use dendy.Apu.Square.{length_table}

abbrev noise_table : List ℕ
noise_table =
    0 ∷ 4 ∷ 8 ∷ 16 ∷ 32 ∷ 64 ∷ 96 ∷ 128 ∷ 160 ∷ 202 ∷ 254 ∷ 380 ∷ 508 ∷ 1016 ∷ 2034 ∷ 4068 ∷ []

pub record Noise : Type 0 where
  pub enabled : Bool
  pub sample : ℕ  -- uint8
  pub seq : ℕ  -- uint16
  pub mode6 : Bool
  pub volume : ℕ  -- uint8
  pub envelope : Envelope
  pub timer_load : ℕ  -- uint16
  pub timer : ℕ  -- uint16
  pub length_halt : Bool
  pub length : ℕ  -- uint8

unfoldable pub reset : Noise → Noise
reset n = record {
  enabled = false;
  sample = 0;
  seq = 1;
  mode6 = false;
  volume = 0;
  envelope = Envelope.reset n.envelope;
  timer_load = 0;
  timer = 0;
  length = 0;
  length_halt = false;
}

unfoldable pub write : Noise → ℕ → ℕ → Noise
write n addr value =
    if addr == 0x400E
    then record n {
      timer_load = get_or noise_table (bit_and value 0x0F) 0;
      mode6 = not (bit_and value 0x80 == 0);
    }
    else if addr == 0x400C
    then record n { length_halt = not (bit_and value 0x20 == 0); volume = bit_and value 0x0F }
    else if addr == 0x400F
    then record n { length = get_or length_table (shr value 3) 0 }
    else n

unfoldable pub tick_envelope : Noise → Noise
tick_envelope n = record n { envelope = Envelope.tick n.envelope }

unfoldable pub tick_length : Noise → Noise
tick_length n =
    if not n.length_halt && ltb 0 n.length then record n { length = n.length - 1 } else n

unfoldable pub tick_timer : Noise → Noise
tick_timer n =
    if n.timer == 0
    then (let shift = if n.mode6 then 6 else 1 in
        let a = bit_and n.seq 1 in
        let b = bit_and (shr n.seq shift) 1 in
        let seq = bit_or (shr n.seq 1) (u16 (shl (bit_xor a b) 14)) in
        record n { seq = seq; sample = bit_and seq 1; timer = n.timer_load })
    else record n { timer = n.timer - 1 }

unfoldable pub output : Noise → ℕ
output n = if not n.enabled || n.length == 0 then 0 else u8 (n.sample * n.volume)

unfoldable pub save_state : Noise → Writer → Writer
save_state n w =
    let w1 = Envelope.save_state n.envelope w in
    let w2 = write_bool n.enabled w1 in
    let w3 = write_uint8 n.sample w2 in
    let w4 = write_uint16 n.seq w3 in
    let w5 = write_bool n.mode6 w4 in
    let w6 = write_uint8 n.volume w5 in
    let w7 = write_uint16 n.timer_load w6 in
    let w8 = write_uint16 n.timer w7 in
    let w9 = write_uint8 n.length w8 in write_bool n.length_halt w9

unfoldable pub load_state : Noise → Reader → Noise × Bool × Reader
load_state n r =
    let (envelope, ok1, r1) = Envelope.load_state n.envelope r in
    let (enabled, ok2, r2) = read_bool_to n.enabled r1 in
    let (sample, ok3, r3) = read_uint8_to n.sample r2 in
    let (seq, ok4, r4) = read_uint16_to n.seq r3 in
    let (mode6, ok5, r5) = read_bool_to n.mode6 r4 in
    let (volume, ok6, r6) = read_uint8_to n.volume r5 in
    let (timer_load, ok7, r7) = read_uint16_to n.timer_load r6 in
    let (timer, ok8, r8) = read_uint16_to n.timer r7 in
    let (length, ok9, r9) = read_uint8_to n.length r8 in
    let (length_halt, ok10, r10) = read_bool_to n.length_halt r9 in
    (
      record n {
        envelope = envelope;
        enabled = enabled;
        sample = sample;
        seq = seq;
        mode6 = mode6;
        volume = volume;
        timer_load = timer_load;
        timer = timer;
        length = length;
        length_halt = length_halt;
      },
      ok1 && ok2 && ok3 && ok4 && ok5 && ok6 && ok7 && ok8 && ok9 && ok10,
      r10,
    )
