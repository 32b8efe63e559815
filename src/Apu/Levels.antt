-- ===== src/Apu/Levels.antt =====
-- The whole audio unit of apu/apu.go under writes of its registers and ticks.
use dendy.Prelude.{
  ℕ, ◌+◌, ◌%◌, u64, ◌≤◌, arith, leb, ◌==◌, if◌then◌else◌, Bool, true, false, not, ◌&&◌, List, [],
  ◌∷◌,
}
use dendy.Apu.Envelope
use dendy.Apu.Square
use dendy.Apu.Triangle
use dendy.Apu.Noise
use dendy.Apu.Dmc
use dendy.Apu.Unit
use dendy.Apu.Unit.{Apu}
use dendy.Apu.Bounds.{
  SquareLevels, NoiseLevels, square_write, square_envelope, square_sweep, square_length,
  square_timer, square_output, noise_write, noise_length, noise_timer, noise_output, triangle_write,
  triangle_length, triangle_linear, triangle_timer, dmc_write, dmc_output, dmc_reader,
}

record Levels (a : Apu) : Type 0 where
  pulse1 : SquareLevels a.pulse1
  pulse2 : SquareLevels a.pulse2
  noise : NoiseLevels a.noise
  triangle : a.triangle.sample ≤ 31
  dmc : a.dmc.sample ≤ 127

branch : {A : Type 0} (P : A → Type 0) (c : Bool) {x y : A} → P x → P y → P (if c then x else y)
branch P true p q = p
branch P false p q = q

reset-Levels : (a : Apu) → Levels (Unit.reset a)
unfolding Unit.reset Square.reset Noise.reset Triangle.reset Dmc.reset Envelope.reset
reset-Levels a = record {
  pulse1 = record { sample = omega arith; volume = omega arith; envelope = omega arith };
  pulse2 = record { sample = omega arith; volume = omega arith; envelope = omega arith };
  noise = record { sample = omega arith; volume = omega arith };
  triangle = omega arith;
  dmc = omega arith;
}

module _ (a : Apu) (h : Levels a) where
  write_enables-Levels : (value : ℕ) → Levels (Unit.write_enables a value)
  unfolding Unit.write_enables
  write_enables-Levels value = record {
    pulse1 = record {
      sample = h.pulse1.sample;
      volume = h.pulse1.volume;
      envelope = h.pulse1.envelope;
    };
    pulse2 = record {
      sample = h.pulse2.sample;
      volume = h.pulse2.volume;
      envelope = h.pulse2.envelope;
    };
    noise = record { sample = h.noise.sample; volume = h.noise.volume };
    triangle = h.triangle;
    dmc = dmc_write a.dmc 0x4015 value h.dmc;
  }

  write-Levels : (addr value : ℕ) → Levels (Unit.write a addr value)
  unfolding Unit.write
  write-Levels addr value =
      let h1 = h.pulse1 in
      let h2 = h.pulse2 in
      let hn = h.noise in
      let ht = h.triangle in
      let hd = h.dmc in
      branch Levels (leb 0x4000 addr && leb addr 0x4003)
        (record {
          pulse1 = square_write a.pulse1 h1 addr value;
          pulse2 = h2;
          noise = hn;
          triangle = ht;
          dmc = hd;
        })
        (branch Levels (leb 0x4004 addr && leb addr 0x4007)
          (record {
            pulse1 = h1;
            pulse2 = square_write a.pulse2 h2 addr value;
            noise = hn;
            triangle = ht;
            dmc = hd;
          })
          (branch Levels (leb 0x4008 addr && leb addr 0x400B)
            (record {
              pulse1 = h1;
              pulse2 = h2;
              noise = hn;
              triangle = triangle_write a.triangle addr value ht;
              dmc = hd;
            })
            (branch Levels (leb 0x400C addr && leb addr 0x400F)
              (record {
                pulse1 = h1;
                pulse2 = h2;
                noise = noise_write a.noise hn addr value;
                triangle = ht;
                dmc = hd;
              })
              (branch Levels (leb 0x4010 addr && leb addr 0x4013)
                (record {
                  pulse1 = h1;
                  pulse2 = h2;
                  noise = hn;
                  triangle = ht;
                  dmc = dmc_write a.dmc addr value hd;
                })
                (branch Levels (addr == 0x4015) (write_enables-Levels value) (
                  branch Levels (addr == 0x4017)
                    (record { pulse1 = h1; pulse2 = h2; noise = hn; triangle = ht; dmc = hd })
                    h))))))

  tick_quarter-Levels : Levels (Unit.tick_quarter a)
  unfolding Unit.tick_quarter Noise.tick_envelope
  tick_quarter-Levels = record {
    pulse1 = square_envelope a.pulse1 h.pulse1;
    pulse2 = square_envelope a.pulse2 h.pulse2;
    noise = record { sample = h.noise.sample; volume = h.noise.volume };
    triangle = triangle_linear a.triangle h.triangle;
    dmc = h.dmc;
  }

  tick_half-Levels : Levels (Unit.tick_half a)
  unfolding Unit.tick_half
  tick_half-Levels =
      let h1 = square_sweep (Square.tick_length a.pulse1) (square_length a.pulse1 h.pulse1) in
      let h2 = square_sweep (Square.tick_length a.pulse2) (square_length a.pulse2 h.pulse2) in
      let hn = noise_length a.noise h.noise in
      let ht = triangle_length a.triangle h.triangle in
      let hd = h.dmc in
      branch Levels (a.mode == 0 && not a.irq_disable)
        (record { pulse1 = h1; pulse2 = h2; noise = hn; triangle = ht; dmc = hd })
        (record { pulse1 = h1; pulse2 = h2; noise = hn; triangle = ht; dmc = hd })

module _ {M : Type 0} (dma_callback : M → ℕ → ℕ × M) where
  tick_timers-Levels : (a : Apu) → Levels a → (m : M) → Levels (Unit.tick_timers dma_callback a m).0
  unfolding Unit.tick_timers Dmc.tick_timer
  tick_timers-Levels a h m = record {
    pulse1 = square_timer a.pulse1 h.pulse1;
    pulse2 = square_timer a.pulse2 h.pulse2;
    noise = noise_timer a.noise h.noise;
    triangle = h.triangle;
    dmc = dmc_reader dma_callback (Dmc.tick_output a.dmc) m (dmc_output a.dmc h.dmc);
  }

  tick_frame-Levels : (a : Apu) → Levels a → (m : M) → Levels (Unit.tick_frame dma_callback a m).0
  unfolding Unit.tick_frame
  tick_frame-Levels a h m =
      let quartered = if Unit.quarter_frame a then Unit.tick_quarter a else a in
      let hq = branch Levels (Unit.quarter_frame a) (tick_quarter-Levels a h) h in
      let halved = if Unit.half_frame a then Unit.tick_half quartered else quartered in
      let hh = branch Levels (Unit.half_frame a) (tick_half-Levels quartered hq) hq in
      let ticked = tick_timers-Levels halved hh m in
      record {
        pulse1 = ticked.pulse1;
        pulse2 = ticked.pulse2;
        noise = ticked.noise;
        triangle = ticked.triangle;
        dmc = ticked.dmc;
      }

  tick-Levels : (a : Apu) → Levels a → (m : M) → Levels (Unit.tick dma_callback a m).0
  unfolding Unit.tick
  tick-Levels a h m =
      let clocked = record a { triangle = Triangle.tick_timer a.triangle } in
      let hc : Levels clocked = record {
        pulse1 = h.pulse1;
        pulse2 = h.pulse2;
        noise = h.noise;
        triangle = triangle_timer a.triangle h.triangle;
        dmc = h.dmc;
      } in
      let moved : (b : Apu) → Levels b → Levels (record b { cycle = u64 (a.cycle + 1) }) = λ b l.
        record {
          pulse1 = l.pulse1;
          pulse2 = l.pulse2;
          noise = l.noise;
          triangle = l.triangle;
          dmc = l.dmc;
        } in
      branch (λ (t : Apu × M). Levels t.0) (not a.enabled) h
        (moved _ (
          branch (λ (t : Apu × M). Levels t.0) (a.cycle % 2 == 0) (tick_frame-Levels clocked hc m)
            hc))

  -- A write of a register, or a cycle of the processor.
  pub data Step : Type 0 where
    write : ℕ → ℕ → Step
    tick : Step

  unfoldable pub steps : List Step → Apu → M → Apu × M
  steps [] a m = (a, m)
  steps (write addr value ∷ rest) a m = steps rest (Unit.write a addr value) m
  steps (tick ∷ rest) a m = let (ticked, m1) = Unit.tick dma_callback a m in steps rest ticked m1

  steps-Levels : (rest : List Step) (a : Apu) (m : M) → Levels a → Levels (steps rest a m).0
  unfolding steps
  steps-Levels [] a m h = h
  steps-Levels (write addr value ∷ rest) a m h =
      steps-Levels rest (Unit.write a addr value) m (write-Levels a h addr value)
  steps-Levels (tick ∷ rest) a m h =
      steps-Levels rest (Unit.tick dma_callback a m).0 (Unit.tick dma_callback a m).1
        (tick-Levels a h m)

  -- After a reset and any writes of registers and ticks, in any order, whatever bytes the sample
  -- channel reads, the pulse and noise channels give at most 15, the triangle at most 31 and the
  -- sample channel at most 127.
  pub output-bounds :
      (calls : List Step) (old : Apu) (m : M)
      → let a = (steps calls (Unit.reset old) m).0 in
        (Square.output a.pulse1 ≤ 15)
        × (Square.output a.pulse2 ≤ 15)
        × (Noise.output a.noise ≤ 15)
        × (Triangle.output a.triangle ≤ 31)
        × (Dmc.output a.dmc ≤ 127)
  unfolding Triangle.output Dmc.output
  output-bounds calls old m =
      let a = (steps calls (Unit.reset old) m).0 in
      let h = steps-Levels calls (Unit.reset old) m (reset-Levels old) in
      (
        square_output a.pulse1 h.pulse1,
        square_output a.pulse2 h.pulse2,
        noise_output a.noise h.noise,
        branch (λ t. t ≤ 31) a.triangle.enabled h.triangle (omega arith),
        h.dmc,
      )
