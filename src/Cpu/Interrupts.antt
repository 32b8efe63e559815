-- ===== src/Cpu/Interrupts.antt =====
-- Interrupts: entry, and the return by `rti`.
use dendy.Prelude.{
  ℕ, ◌+◌, ◌-◌, ◌^◌, ◌≤◌, ◌<◌, ◌≡◌, ◌≢◌, refl, sym, ap, ◌∙◌, arith, bit_and, bit_or, u8, u16, shl,
  shr, true, ◌==◌, ◌||◌,
}
use dendy.Prelude.Bits.{all_below, all_below_sound}
use dendy.Cpu.State.{
  Memory, Cpu, pop_word, read_word, enter_interrupt, get_flag, set_flag, flag_interrupt, flag_break,
}
use dendy.Cpu.Flags.{same, same_eq, is_set}
use dendy.Cpu.Addr.{Operand}
use dendy.Cpu.Official.{rti}
use dendy.Cpu.Stack.{
  StackRam, push_byte_lem, pop_byte_lem, pushed_word, push_word_lem, word_of_bytes,
}

-- The status register after a push by an interrupt and the pop by `rti`.
abbrev pub restored : ℕ → ℕ
restored p = bit_and (bit_or (bit_and p 0xEF) 0x20) (0xFF - flag_break)

restored_table :
    all_below 8
      (λ j. j == 4 || j == 5 || all_below 256 (λ p. same (is_set (restored p) j) (is_set p j)))
    ≡ true
unfolding all_below
restored_table = refl

pub restored_flag : (j p : ℕ) → j < 8 → j ≢ 4 → j ≢ 5 → p < 256 → is_set (restored p) j ≡ is_set p j
restored_flag j p hj n4 n5 hp =
    let row =
      all_below_sound 8
        (λ j. j == 4 || j == 5 || all_below 256 (λ p. same (is_set (restored p) j) (is_set p j))) j
        restored_table hj in
    same_eq _ _ (
      all_below_sound 256 (λ p. same (is_set (restored p) j) (is_set p j)) p (ground (arith, row))
        hp)

module _ {M : Type 0} (mem : Memory M) (ram : StackRam mem) where
  -- The memory after the three pushes of an interrupt.
  abbrev interrupted : Cpu → M → M
  interrupted cpu m =
      mem.write (pushed_word mem ram cpu m cpu.pc) (256 + u8 (u8 (cpu.sp + 255) + 255)) cpu.p

  abbrev lowered : ℕ → ℕ
  lowered sp = u8 (u8 (u8 (sp + 255) + 255) + 255)

  -- Entry pushes the program counter and the status, masks further interrupts, jumps through the
  -- vector and waits seven cycles.
  enter_interrupt_lem :
      (vector : ℕ) (cpu : Cpu) (m : M)
      → cpu.sp < 256
      → let (start, m1) = read_word mem (interrupted cpu m) vector in
        enter_interrupt mem vector cpu m ≡ (
          record (set_flag (record cpu { sp = lowered cpu.sp }) flag_interrupt true) {
            pc = start;
            halt = cpu.halt + 7;
          },
          m1,
        )
  unfolding enter_interrupt set_flag
  enter_interrupt_lem vector cpu m h = rw (
    push_word_lem mem ram cpu m cpu.pc h,
    push_byte_lem mem ram (record cpu { sp = u8 (u8 (cpu.sp + 255) + 255) })
        (pushed_word mem ram cpu m cpu.pc) cpu.p (omega arith),
  )

  -- Reading the vector leaves the pushed bytes alone.
  vector_keeps :
      (m : M) (vector b : ℕ)
      → 256 ≤ b
      → b < 512
      → ram.peek (read_word mem m vector).1 b ≡ ram.peek m b
  unfolding read_word
  vector_keeps m vector b lo hi =
      ram.keeps (mem.read m vector).1 (u16 (vector + 1)) b lo hi ∙ ram.keeps m vector b lo hi

  pushed_bytes :
      (cpu : Cpu) (m : M)
      → cpu.sp < 256
      → let m1 = interrupted cpu m in
        (ram.peek m1 (256 + u8 (u8 (cpu.sp + 255) + 255)) ≡ cpu.p)
        × (ram.peek m1 (256 + u8 (cpu.sp + 255)) ≡ u8 cpu.pc)
        × (ram.peek m1 (256 + cpu.sp) ≡ u8 (shr cpu.pc 8))
  pushed_bytes cpu m h =
      let s1 = u8 (cpu.sp + 255) in
      let s2 = u8 (s1 + 255) in
      let m1 = mem.write m (256 + cpu.sp) (u8 (shr cpu.pc 8)) in
      let m2 = mem.write m1 (256 + s1) (u8 cpu.pc) in
      (
        ground (arith, ram.writes m2 (256 + s2) (256 + s2) cpu.p),
        ground (
          arith,
          ram.writes m2 (256 + s2) (256 + s1) cpu.p,
          ram.writes m1 (256 + s1) (256 + s1) (u8 cpu.pc),
        ),
        ground (
          arith,
          ram.writes m2 (256 + s2) (256 + cpu.sp) cpu.p,
          ram.writes m1 (256 + s1) (256 + cpu.sp) (u8 cpu.pc),
          ram.writes m (256 + cpu.sp) (256 + cpu.sp) (u8 (shr cpu.pc 8)),
        ),
      )

  -- `rti` pops the status and the program counter.
  rti_lem :
      (c : Cpu) (m : M) (arg : Operand)
      → let s1 = u8 (c.sp + 1) in
        let s2 = u8 (s1 + 1) in
        let s3 = u8 (s2 + 1) in
        rti mem c m arg ≡ (
          record c {
            p = restored (ram.peek m (256 + s1));
            sp = s3;
            pc = bit_or (u16 (shl (ram.peek m (256 + s3)) 8)) (ram.peek m (256 + s2));
          },
          m,
        )
  unfolding rti pop_word set_flag
  rti_lem c m arg =
      let s1 = u8 (c.sp + 1) in
      let c2 = record c { sp = s1; p = restored (ram.peek m (256 + s1)) } in
      rw (
        pop_byte_lem mem ram c m,
        pop_byte_lem mem ram c2 m,
        pop_byte_lem mem ram (record c2 { sp = u8 (s1 + 1) }) m,
      )

  rti_registers :
      (vector : ℕ) (cpu : Cpu) (m : M) (arg : Operand)
      → cpu.sp < 256
      → cpu.pc < 65536
      → let (cpu1, m1) = enter_interrupt mem vector cpu m in
        (rti mem cpu1 m1 arg).0 ≡ record cpu { p = restored cpu.p; halt = cpu.halt + 7 }
  unfolding set_flag
  rti_registers vector cpu m arg hs hp =
      let s0 = cpu.sp in
      let s1 = u8 (s0 + 255) in
      let s2 = u8 (s1 + 255) in
      let start = (read_word mem (interrupted cpu m) vector).0 in
      let m1 = (read_word mem (interrupted cpu m) vector).1 in
      let inside : Cpu = record (set_flag (record cpu { sp = lowered s0 }) flag_interrupt true) {
        pc = start;
        halt = cpu.halt + 7;
      } in
      let s3 = u8 (u8 (u8 (lowered s0 + 1) + 1) + 1) in
      let low_byte = ram.peek m1 (256 + u8 (u8 (lowered s0 + 1) + 1)) in
      let high_byte = ram.peek m1 (256 + s3) in
      let (status, low, high) = pushed_bytes cpu m hs in
      let back2 : u8 (lowered s0 + 1) ≡ s2 = omega arith in
      let back1 : u8 (u8 (lowered s0 + 1) + 1) ≡ s1 = omega arith in
      let back0 : u8 (u8 (u8 (lowered s0 + 1) + 1) + 1) ≡ s0 = omega arith in
      let popped : ram.peek m1 (256 + u8 (lowered s0 + 1)) ≡ cpu.p =
        ap (λ t. ram.peek m1 (256 + t)) back2
        ∙ vector_keeps (interrupted cpu m) vector (256 + s2) (omega arith) (omega arith)
        ∙ status in
      let lo : ram.peek m1 (256 + u8 (u8 (lowered s0 + 1) + 1)) ≡ u8 cpu.pc =
        ap (λ t. ram.peek m1 (256 + t)) back1
        ∙ vector_keeps (interrupted cpu m) vector (256 + s1) (omega arith) (omega arith)
        ∙ low in
      let hi : ram.peek m1 (256 + u8 (u8 (u8 (lowered s0 + 1) + 1) + 1)) ≡ u8 (shr cpu.pc 8) =
        ap (λ t. ram.peek m1 (256 + t)) back0
        ∙ vector_keeps (interrupted cpu m) vector (256 + s0) (omega arith) (omega arith)
        ∙ high in
      let resume : bit_or (u16 (shl (u8 (shr cpu.pc 8)) 8)) (u8 cpu.pc) ≡ cpu.pc =
        word_of_bytes (u8 (shr cpu.pc 8)) (u8 cpu.pc) (omega arith) (omega arith) ∙ omega arith in
      let resumed : ℕ → ℕ → ℕ → ℕ → Cpu = λ p sp l h. record cpu {
        p = restored p;
        sp = sp;
        pc = bit_or (u16 (shl h 8)) l;
        halt = cpu.halt + 7;
      } in
      rw (enter_interrupt_lem vector cpu m hs) (
        ap (λ (r : Cpu × M). r.0) (rti_lem inside m1 arg)
        ∙ ap (λ t. resumed t s3 low_byte high_byte) popped
        ∙ ap (λ t. resumed cpu.p t low_byte high_byte) back0
        ∙ ap (λ t. resumed cpu.p s0 t high_byte) lo
        ∙ ap (λ t. resumed cpu.p s0 (u8 cpu.pc) t) hi
        ∙ ap (λ n. record cpu { p = restored cpu.p; halt = cpu.halt + 7; pc = n }) resume)

  -- With page 1 of the memory as plain storage: an interrupt handler that returns at once resumes
  -- the program. Every register but the status is back, the wait is 7 cycles longer, and every
  -- flag but bits 4 and 5 is back.
  pub rti-enter_interrupt :
      (vector : ℕ) (cpu : Cpu) (m : M) (arg : Operand) (j : ℕ)
      → cpu.sp < 256
      → cpu.pc < 65536
      → cpu.p < 256
      → j < 8
      → j ≢ 4
      → j ≢ 5
      → let (cpu1, m1) = enter_interrupt mem vector cpu m in
        let out = (rti mem cpu1 m1 arg).0 in
        (out ≡ record cpu { p = out.p; halt = cpu.halt + 7 })
        × (get_flag out (2 ^ j) ≡ get_flag cpu (2 ^ j))
  unfolding get_flag
  rti-enter_interrupt vector cpu m arg j hs hpc hp hj n4 n5 =
      let (cpu1, m1) = enter_interrupt mem vector cpu m in
      let out : Cpu = (rti mem cpu1 m1 arg).0 in
      let resumed = rti_registers vector cpu m arg hs hpc in
      let status : out.p ≡ restored cpu.p = ap (λ (c : Cpu). c.p) resumed in
      (
        resumed ∙ ap (λ t. record cpu { p = t; halt = cpu.halt + 7 }) (sym status),
        ap (λ t. is_set t j) status ∙ restored_flag j cpu.p hj n4 n5 hp,
      )
