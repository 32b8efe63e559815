-- ===== src/Apu/Bounds.antt =====
-- The levels of the channels stay inside the range of the converters.
use dendy.Prelude.{
  ℕ, zero, suc, ◌+◌, ◌*◌, ◌≤◌, arith, bit_and, u8, shr, ltb, ◌==◌, not, ◌||◌, Bool-cases, inl, inr,
}
use dendy.Prelude.Bits.{and_le_right, xor_lt}
use dendy.Apu.Envelope
use dendy.Apu.Envelope.{Envelope}
use dendy.Apu.Square
use dendy.Apu.Square.{Square}
use dendy.Apu.Triangle
use dendy.Apu.Triangle.{Triangle}
use dendy.Apu.Noise
use dendy.Apu.Noise.{Noise}
use dendy.Apu.Dmc
use dendy.Apu.Dmc.{Dmc}

pub record SquareLevels (s : Square) : Type 0 where
  pub sample : s.sample ≤ 1
  pub volume : s.volume ≤ 15
  pub envelope : s.envelope.volume ≤ 15

pub record NoiseLevels (n : Noise) : Type 0 where
  pub sample : n.sample ≤ 1
  pub volume : n.volume ≤ 15

pub envelope_tick : (e : Envelope) → e.volume ≤ 15 → (Envelope.tick e).volume ≤ 15
unfolding Envelope.tick
envelope_tick e h = ground arith

product : (a b : ℕ) → a ≤ 1 → b ≤ 15 → u8 (a * b) ≤ 15
product zero b h k = omega arith
product (suc zero) b h k = omega arith
product (suc (suc a)) b h k = absurd (omega arith)

module _ (s : Square) (h : SquareLevels s) where
  pub square_reset : SquareLevels (Square.reset s)
  unfolding Square.reset Envelope.reset
  square_reset = record { sample = omega arith; volume = omega arith; envelope = omega arith }

  pub square_write : (addr value : ℕ) → SquareLevels (Square.write s addr value)
  unfolding Square.write Square.write_control Square.write_sweep Square.write_length
  square_write addr value =
      let low = and_le_right value 0x0F in
      let sample = h.sample in
      let volume = h.volume in
      let envelope = h.envelope in
      record { sample = ground arith; volume = ground arith; envelope = ground arith }

  pub square_envelope : SquareLevels (Square.tick_envelope s)
  unfolding Square.tick_envelope
  square_envelope = record {
    sample = h.sample;
    volume = h.volume;
    envelope = envelope_tick s.envelope h.envelope;
  }

  pub square_sweep : SquareLevels (Square.tick_sweep s)
  unfolding Square.tick_sweep
  square_sweep =
      let sample = h.sample in
      let volume = h.volume in
      let envelope = h.envelope in
      record { sample = ground arith; volume = ground arith; envelope = ground arith }

  pub square_length : SquareLevels (Square.tick_length s)
  unfolding Square.tick_length
  square_length =
      let sample = h.sample in
      let volume = h.volume in
      let envelope = h.envelope in
      record { sample = ground arith; volume = ground arith; envelope = ground arith }

  pub square_timer : SquareLevels (Square.tick_timer s)
  unfolding Square.tick_timer
  square_timer =
      let sample = h.sample in
      let volume = h.volume in
      let envelope = h.envelope in
      let bit = and_le_right (shr s.duty (bit_and (s.duty_bit + 1) 0x07)) 1 in
      record { sample = ground arith; volume = ground arith; envelope = ground arith }

  pub square_output : Square.output s ≤ 15
  unfolding Square.output
  square_output = elim (Bool-cases (not s.enabled || s.length == 0 || ltb s.timer 8)) [
    | inl e ↦ rw e (omega arith)
    | inr e ↦ elim (Bool-cases s.envelope.enabled) [
      | inl f ↦ rw (e, f) (product s.sample s.envelope.volume h.sample h.envelope)
      | inr f ↦ rw (e, f) (product s.sample s.volume h.sample h.volume)
    ]
  ]

module _ (n : Noise) (h : NoiseLevels n) where
  pub noise_write : (addr value : ℕ) → NoiseLevels (Noise.write n addr value)
  unfolding Noise.write
  noise_write addr value =
      let low = and_le_right value 0x0F in
      let sample = h.sample in
      let volume = h.volume in record { sample = ground arith; volume = ground arith }

  pub noise_length : NoiseLevels (Noise.tick_length n)
  unfolding Noise.tick_length
  noise_length =
      let sample = h.sample in
      let volume = h.volume in record { sample = ground arith; volume = ground arith }

  pub noise_timer : NoiseLevels (Noise.tick_timer n)
  unfolding Noise.tick_timer
  noise_timer =
      let volume = h.volume in
      let sample = h.sample in
      elim (Bool-cases (n.timer == 0)) [
        | inl e ↦ rw e (record { sample = and_le_right _ 1; volume = volume })
        | inr e ↦ rw e (record { sample = sample; volume = volume })
      ]

  pub noise_output : Noise.output n ≤ 15
  unfolding Noise.output
  noise_output = elim (Bool-cases (not n.enabled || n.length == 0)) [
    | inl e ↦ rw e (omega arith)
    | inr e ↦ rw e (product n.sample n.volume h.sample h.volume)
  ]

pub triangle_write :
    (t : Triangle) (addr value : ℕ) → t.sample ≤ 31 → (Triangle.write t addr value).sample ≤ 31
unfolding Triangle.write
triangle_write t addr value h = ground arith

pub triangle_length : (t : Triangle) → t.sample ≤ 31 → (Triangle.tick_length t).sample ≤ 31
unfolding Triangle.tick_length
triangle_length t h = ground arith

pub triangle_linear : (t : Triangle) → t.sample ≤ 31 → (Triangle.tick_linear t).sample ≤ 31
unfolding Triangle.tick_linear
triangle_linear t h = ground arith

pub triangle_timer : (t : Triangle) → t.sample ≤ 31 → (Triangle.tick_timer t).sample ≤ 31
unfolding Triangle.tick_timer
triangle_timer t h =
    let sequence = and_le_right (t.sequence + 1) 0x1F in
    let flipped = xor_lt 5 (bit_and (t.sequence + 1) 0x1F) 0x1F (omega arith) (omega arith) in
    ground arith

pub dmc_write : (d : Dmc) (addr value : ℕ) → d.sample ≤ 127 → (Dmc.write d addr value).sample ≤ 127
unfolding Dmc.write Dmc.write_rate Dmc.write_enable
dmc_write d addr value h = let low = and_le_right value 0x7F in ground arith

next_sample_le : (d : Dmc) → d.sample ≤ 127 → Dmc.next_sample d ≤ 127
unfolding Dmc.next_sample
next_sample_le d h = ground arith

pub dmc_output : (d : Dmc) → d.sample ≤ 127 → (Dmc.tick_output d).sample ≤ 127
unfolding Dmc.tick_output
dmc_output d h = let next = next_sample_le d h in ground arith

module _ {M : Type 0} (dma_callback : M → ℕ → ℕ × M) where
  pub dmc_reader :
      (d : Dmc) (m : M) → d.sample ≤ 127 → (Dmc.tick_reader dma_callback d m).0.sample ≤ 127
  unfolding Dmc.tick_reader
  dmc_reader d m h = ground arith
