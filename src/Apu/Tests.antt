-- ===== src/Apu/Tests.antt =====
-- The theorems at concrete channels.
use dendy.Prelude.{ℕ, ◌+◌, ◌≤◌, ◌≡◌, refl, arith, true, false, List, [], ◌∷◌}
use dendy.Apu.Envelope.{Envelope, tick}
use dendy.Apu.Decay.{periods, ticks-start}
use dendy.Apu.Square
use dendy.Apu.Square.{Square}
use dendy.Apu.Triangle
use dendy.Apu.Noise
use dendy.Apu.Dmc
use dendy.Apu.Unit
use dendy.Apu.Unit.{Apu}
use dendy.Apu.Levels.{Step, steps, output-bounds}

abbrev fading : Envelope
fading = record {
  enabled = true;
  start = true;
  loop = false;
  counter_load = 3;
  counter = 1;
  volume = 2;
}

ticks-start_example :
    (periods 4 (tick fading) ≡ record fading { start = false; counter = 3; volume = 11 })
    × (periods 16 (tick fading) ≡ record fading { start = false; counter = 3; volume = 0 })
ticks-start_example = ticks-start fading 4 refl (omega arith)

abbrev pulse : Square
pulse = record {
  enabled = true;
  is_pulse1 = true;
  sample = 1;
  volume = 200;
  duty = 0x40;
  duty_bit = 0;
  envelope = fading;
  timer_load = 100;
  timer = 10;
  length_halt = false;
  length = 5;
  sweep_enabled = false;
  sweep_load = 0;
  sweep_negate = false;
  sweep_shift = 0;
  sweep_reload = false;
  sweep = 0;
}

abbrev playing : Apu
playing = record {
  enabled = true;
  pending_irq = false;
  mode = 1;
  cycle = 7;
  frame = 3;
  pulse1 = pulse;
  pulse2 = pulse;
  noise = record {
    enabled = true;
    sample = 9;
    seq = 1;
    mode6 = false;
    volume = 99;
    envelope = fading;
    timer_load = 4;
    timer = 0;
    length_halt = false;
    length = 1;
  };
  dmc = record {
    enabled = false;
    loop = false;
    irq_enabled = false;
    irq_pending = false;
    timer_load = 1;
    timer = 0;
    addr_load = 0;
    addr = 0;
    length_load = 0;
    length = 0;
    bits_left = 1;
    shifter = 1;
    buffer = 0;
    sample = 200;
    is_empty = true;
    is_silent = false;
  };
  triangle = record {
    enabled = true;
    sample = 90;
    sequence = 0;
    timer_load = 4;
    timer = 0;
    length_halt = false;
    length = 3;
    linear_enabled = true;
    linear_reset = true;
    linear_load = 5;
    linear = 5;
  };
  irq_disable = false;
  frame_irq = false;
}

-- The sample channel reads bytes of the value of their address.
abbrev echo : ℕ → ℕ → ℕ × ℕ
echo m addr = (addr, m + 1)

abbrev script : List (Step echo)
script =
    Step.write 0x4015 0x1F
    ∷ Step.write 0x4000 0x9F
    ∷ Step.write 0x4003 0x10
    ∷ Step.tick
    ∷ Step.tick
    ∷ []

output-bounds_example :
    let a = (steps echo script (Unit.reset playing) 0).0 in
    (Square.output a.pulse1 ≤ 15)
    × (Square.output a.pulse2 ≤ 15)
    × (Noise.output a.noise ≤ 15)
    × (Triangle.output a.triangle ≤ 31)
    × (Dmc.output a.dmc ≤ 127)
output-bounds_example = output-bounds echo script playing 0
