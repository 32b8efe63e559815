-- ===== src/Apu/Envelope.antt =====
-- apu/envelope.go, the volume envelope.
use dendy.Prelude.{ℕ, ◌-◌, ltb, if◌then◌else◌, Bool, false, ◌&&◌}
use dendy.Binario.Writer.{Writer, write_uint8, write_bool}
use dendy.Binario.Reader.{Reader, read_uint8_to, read_bool_to}

pub record Envelope : Type 0 where
  pub enabled : Bool
  pub start : Bool
  pub loop : Bool
  pub counter_load : ℕ  -- uint8
  pub counter : ℕ  -- uint8
  pub volume : ℕ  -- uint8

unfoldable pub reset : Envelope → Envelope
reset e = record {
  enabled = false;
  start = false;
  loop = false;
  counter_load = 0;
  counter = 0;
  volume = 0;
}

unfoldable pub tick : Envelope → Envelope
tick e =
    if e.start
    then record e { counter = e.counter_load; volume = 0x0F; start = false }
    else if ltb 0 e.counter
    then record e { counter = e.counter - 1 }
    else let reloaded = record e { counter = e.counter_load } in
      if ltb 0 e.volume
      then record reloaded { volume = e.volume - 1 }
      else if e.loop
      then record reloaded { volume = 0x0F }
      else reloaded

-- The volume is not saved.
unfoldable pub save_state : Envelope → Writer → Writer
save_state e w =
    let w1 = write_bool e.enabled w in
    let w2 = write_bool e.start w1 in
    let w3 = write_bool e.loop w2 in
    let w4 = write_uint8 e.counter_load w3 in write_uint8 e.counter w4

unfoldable pub load_state : Envelope → Reader → Envelope × Bool × Reader
load_state e r =
    let (enabled, ok1, r1) = read_bool_to e.enabled r in
    let (start, ok2, r2) = read_bool_to e.start r1 in
    let (loop, ok3, r3) = read_bool_to e.loop r2 in
    let (counter_load, ok4, r4) = read_uint8_to e.counter_load r3 in
    let (counter, ok5, r5) = read_uint8_to e.counter r4 in
    (
      record e {
        enabled = enabled;
        start = start;
        loop = loop;
        counter_load = counter_load;
        counter = counter;
      },
      ok1 && ok2 && ok3 && ok4 && ok5,
      r5,
    )
