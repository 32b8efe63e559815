-- ===== src/Cpu/Stack.antt =====
-- What is pushed is what is popped, and the calls, returns and interrupts built on it.
use dendy.Prelude.{
  ℕ, ◌+◌, ◌*◌, ◌^◌, ◌≤◌, ◌<◌, ◌≡◌, refl, ap, ◌∙◌, arith, bit_or, u8, u16, shl, shr, true, ◌==◌,
  if◌then◌else◌,
}
use dendy.Prelude.Bits.{table_eq, all_below, or_disjoint}
use dendy.Cpu.State.{Memory, Cpu, push_byte, pop_byte, push_word, pop_word}
use dendy.Cpu.Addr.{Operand}
use dendy.Cpu.Official.{jsr, rts}

-- Page 1 of the memory is plain storage: a read there gives what was last written and changes
-- nothing, and no read elsewhere changes it.
pub record StackRam {M : Type 0} (mem : Memory M) : Type 0 where
  pub peek : M → ℕ → ℕ
  pub reads : (m : M) (a : ℕ) → 256 ≤ a → a < 512 → mem.read m a ≡ (peek m a, m)
  pub keeps : (m : M) (a b : ℕ) → 256 ≤ b → b < 512 → peek (mem.read m a).1 b ≡ peek m b
  pub writes :
      (m : M) (a b v : ℕ)
      → 256 ≤ a
      → a < 512
      → 256 ≤ b
      → b < 512
      → peek (mem.write m a v) b ≡ (if a == b then v else peek m b)

stack_table : all_below 256 (λ sp. bit_or 0x0100 sp == 256 + sp) ≡ true
unfolding all_below
stack_table = refl

pub stack_address : (sp : ℕ) → sp < 256 → bit_or 0x0100 sp ≡ 256 + sp
stack_address sp h = table_eq 256 (bit_or 0x0100) (λ t. 256 + t) sp stack_table h

pub word_of_bytes : (hi lo : ℕ) → hi < 256 → lo < 256 → bit_or (u16 (shl hi 8)) lo ≡ hi * 256 + lo
word_of_bytes hi lo h l =
    ap (λ t. bit_or t lo) {y = hi * 2 ^ 8} (omega arith) ∙ or_disjoint 8 hi lo l

module _ {M : Type 0} (mem : Memory M) (ram : StackRam mem) where
  pub push_byte_lem :
      (cpu : Cpu) (m : M) (v : ℕ)
      → cpu.sp < 256
      → push_byte mem cpu m v
        ≡ (record cpu { sp = u8 (cpu.sp + 255) }, mem.write m (256 + cpu.sp) v)
  unfolding push_byte
  push_byte_lem cpu m v h = rw (stack_address cpu.sp h)

  pub pop_byte_lem :
      (cpu : Cpu) (m : M)
      → let sp = u8 (cpu.sp + 1) in
        pop_byte mem cpu m ≡ (ram.peek m (256 + sp), record cpu { sp = sp }, m)
  unfolding pop_byte
  pop_byte_lem cpu m = rw (
    stack_address (u8 (cpu.sp + 1)) (omega arith),
    ram.reads m (256 + u8 (cpu.sp + 1)) (omega arith) (omega arith),
  )

  -- The two pushes of a word, as writes.
  abbrev pub pushed_word : Cpu → M → ℕ → M
  pushed_word cpu m w =
      mem.write (mem.write m (256 + cpu.sp) (u8 (shr w 8))) (256 + u8 (cpu.sp + 255)) (u8 w)

  pub push_word_lem :
      (cpu : Cpu) (m : M) (w : ℕ)
      → cpu.sp < 256
      → push_word mem cpu m w
        ≡ (record cpu { sp = u8 (u8 (cpu.sp + 255) + 255) }, pushed_word cpu m w)
  unfolding push_word
  push_word_lem cpu m w h = rw (
    push_byte_lem cpu m (u8 (shr w 8)) h,
    push_byte_lem (record cpu { sp = u8 (cpu.sp + 255) })
        (mem.write m (256 + cpu.sp) (u8 (shr w 8))) (u8 w) (omega arith),
  )

  -- With page 1 of the memory as plain storage: a word that was pushed is popped again, and every
  -- register is back, for every stack pointer.
  pub pop_word-push_word :
      (cpu : Cpu) (m : M) (w : ℕ)
      → cpu.sp < 256
      → w < 65536
      → let (cpu1, m1) = push_word mem cpu m w in pop_word mem cpu1 m1 ≡ (w, cpu, m1)
  unfolding pop_word
  pop_word-push_word cpu m w hs hw =
      let low = u8 (cpu.sp + 255) in
      let m1 = pushed_word cpu m w in
      let cpu1 = record cpu { sp = u8 (low + 255) } in
      let back : u8 (u8 (low + 255) + 1) ≡ low = omega arith in
      let back2 : u8 (u8 (u8 (low + 255) + 1) + 1) ≡ cpu.sp = omega arith in
      let lo_read : ram.peek m1 (256 + u8 (u8 (low + 255) + 1)) ≡ u8 w = ground (
        arith,
        ram.writes (mem.write m (256 + cpu.sp) (u8 (shr w 8))) (256 + low)
            (256 + u8 (u8 (low + 255) + 1)) (u8 w),
      ) in
      let hi_read : ram.peek m1 (256 + u8 (u8 (u8 (low + 255) + 1) + 1)) ≡ u8 (shr w 8) = ground (
        arith,
        ram.writes (mem.write m (256 + cpu.sp) (u8 (shr w 8))) (256 + low)
            (256 + u8 (u8 (u8 (low + 255) + 1) + 1)) (u8 w),
        ram.writes m (256 + cpu.sp) (256 + u8 (u8 (u8 (low + 255) + 1) + 1)) (u8 (shr w 8)),
      ) in
      rw
        (
          push_word_lem cpu m w hs,
          pop_byte_lem cpu1 m1,
          pop_byte_lem (record cpu1 { sp = u8 (u8 (low + 255) + 1) }) m1,
          lo_read,
          hi_read,
          word_of_bytes (u8 (shr w 8)) (u8 w) (omega arith) (omega arith),
          back2,
        )
        (ap (λ n. (n, cpu, m1)) {y = w} (omega arith))

  -- With page 1 of the memory as plain storage: a subroutine that returns at once resumes the
  -- caller, with every register as before.
  pub jsr-rts :
      (cpu : Cpu) (m : M) (arg arg' : Operand)
      → cpu.sp < 256
      → cpu.pc < 65536
      → let (cpu1, m1) = jsr mem cpu m arg in rts mem cpu1 m1 arg' ≡ (cpu, m1)
  unfolding jsr rts
  jsr-rts cpu m arg arg' hs hp =
      let w = u16 (cpu.pc + 65535) in
      let jumped = record cpu { pc = arg.addr } in
      rw
        (
          push_word_lem cpu m w hs,
          ← ap (λ (r : Cpu × M). r.0) (push_word_lem jumped m w hs),
          ← ap (λ (r : Cpu × M). r.1) (push_word_lem jumped m w hs),
          pop_word-push_word jumped m w hs (omega arith),
          push_word_lem jumped m w hs,
        )
        (ap (λ n. (record cpu { pc = n }, pushed_word cpu m w)) {y = cpu.pc} (omega arith))
