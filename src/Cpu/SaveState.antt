-- ===== src/Cpu/SaveState.antt =====
-- cpu/state.go: the processor in a save state.
use dendy.Prelude.{ℕ, ◌<◌, ◌^◌, ◌≡◌, ap, arith, u32, Bool, true, ◌&&◌, List, [], ◌∷◌, ◌++◌, length}
use dendy.Binario.Writer.{Writer, write_uint8, write_uint16, write_uint32, write_uint64, put_uint}
use dendy.Binario.Reader.{Reader, read_uint8_to, read_uint16_to, read_uint32_to, read_uint64_to}
use dendy.Binario.RoundTrip.{
  Reads, read_uint8_to-byte, read_uint16_to-put, read_uint32_to-put, read_uint64_to-put,
}
use dendy.Cpu.State.{Cpu}

unfoldable pub save_state : Cpu → Writer → Writer
save_state cpu w =
    let w1 = write_uint8 cpu.a w in
    let w2 = write_uint8 cpu.x w1 in
    let w3 = write_uint8 cpu.y w2 in
    let w4 = write_uint8 cpu.p w3 in
    let w5 = write_uint8 cpu.sp w4 in
    let w6 = write_uint16 cpu.pc w5 in
    let w7 = write_uint64 cpu.cycles w6 in
    let w8 = write_uint8 cpu.interrupt w7 in write_uint32 (u32 cpu.halt) w8

-- Every read is made, also after one that fails; the flag tells that none failed.
unfoldable pub load_state : Cpu → Reader → Cpu × Bool × Reader
load_state cpu r =
    let (a, ok1, r1) = read_uint8_to cpu.a r in
    let (x, ok2, r2) = read_uint8_to cpu.x r1 in
    let (y, ok3, r3) = read_uint8_to cpu.y r2 in
    let (p, ok4, r4) = read_uint8_to cpu.p r3 in
    let (sp, ok5, r5) = read_uint8_to cpu.sp r4 in
    let (pc, ok6, r6) = read_uint16_to cpu.pc r5 in
    let (cycles, ok7, r7) = read_uint64_to cpu.cycles r6 in
    let (interrupt, ok8, r8) = read_uint8_to cpu.interrupt r7 in
    let (halt, ok9, r9) = read_uint32_to 0 r8 in
    (
      record {
        x = x;
        y = y;
        a = a;
        p = p;
        sp = sp;
        pc = pc;
        cycles = cycles;
        halt = halt;
        interrupt = interrupt;
      },
      ok1 && ok2 && ok3 && ok4 && ok5 && ok6 && ok7 && ok8 && ok9,
      r9,
    )

-- The registers have their widths, and the wait fits 32 bits.
pub record Fits (cpu : Cpu) : Type 0 where
  pub a : cpu.a < 256
  pub x : cpu.x < 256
  pub y : cpu.y < 256
  pub p : cpu.p < 256
  pub sp : cpu.sp < 256
  pub pc : cpu.pc < 2 ^ 16
  pub cycles : cpu.cycles < 2 ^ 64
  pub interrupt : cpu.interrupt < 256
  pub halt : cpu.halt < 2 ^ 32

-- A processor whose registers have their widths and whose wait fits 32 bits is loaded again as it
-- was saved, over any other processor, and what follows in the buffer is left.
pub load_state-save_state_cpu :
    (cpu old : Cpu) (rest buf : List ℕ)
    → Fits cpu
    → length buf ≡ 8
    → Reads (load_state old (record { unread = save_state cpu [] ++ rest; buf = buf })) cpu rest
unfolding save_state load_state write_uint8 write_uint16 write_uint32 write_uint64
load_state-save_state_cpu cpu old rest buf f h =
    let small : u32 cpu.halt ≡ cpu.halt = omega (arith, f.halt) in
    let t9 = put_uint 4 (u32 cpu.halt) ++ rest in
    let t8 = cpu.interrupt ∷ t9 in
    let t7 = put_uint 8 cpu.cycles ++ t8 in
    let t6 = put_uint 2 cpu.pc ++ t7 in
    let t5 = cpu.sp ∷ t6 in
    let t4 = cpu.p ∷ t5 in
    let t3 = cpu.y ∷ t4 in
    let t2 = cpu.x ∷ t3 in
    let s1 = read_uint8_to-byte t2 buf h cpu.a old.a f.a in
    let s2 = read_uint8_to-byte t3 s1.buf s1.sized cpu.x old.x f.x in
    let s3 = read_uint8_to-byte t4 s2.buf s2.sized cpu.y old.y f.y in
    let s4 = read_uint8_to-byte t5 s3.buf s3.sized cpu.p old.p f.p in
    let s5 = read_uint8_to-byte t6 s4.buf s4.sized cpu.sp old.sp f.sp in
    let s6 = read_uint16_to-put t7 s5.buf s5.sized cpu.pc old.pc f.pc in
    let s7 = read_uint64_to-put t8 s6.buf s6.sized cpu.cycles old.cycles f.cycles in
    let s8 = read_uint8_to-byte t9 s7.buf s7.sized cpu.interrupt old.interrupt f.interrupt in
    let s9 = read_uint32_to-put rest s8.buf s8.sized (u32 cpu.halt) 0 (omega arith) in
    record {
      buf = s9.buf;
      sized = s9.sized;
      returns =
          rw
            (
              s1.returns, s2.returns, s3.returns, s4.returns, s5.returns, s6.returns, s7.returns,
              s8.returns, s9.returns,
            )
            (ap (λ t. (record cpu { halt = t }, true, record { unread = rest; buf = s9.buf }))
              small);
    }
