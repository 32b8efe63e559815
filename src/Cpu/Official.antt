-- ===== src/Cpu/Official.antt =====
-- cpu/official.go, the handlers of the official instructions. Each takes the registers, the memory
-- and the operand.
use dendy.Prelude.{
  ℕ, ◌+◌, ◌-◌, bit_and, bit_or, bit_xor, u8, u16, shl, shr, Bool, true, false, not, ◌&&◌, ◌==◌, ltb,
  if◌then◌else◌,
}
use dendy.Cpu.State.{
  Memory, Cpu, flag_carry, flag_zero, flag_interrupt, flag_decimal, flag_break, flag_overflow,
  flag_negative, vec_irq, get_flag, set_flag, set_zn, carried, read_word, push_byte, pop_byte,
  push_word, pop_word,
}
use dendy.Cpu.Addr.{Operand, is_acc}

-- `if arg.pageCross { cpu.Halt++ }`
abbrev pub cross : Cpu → Operand → Cpu
cross cpu arg = if arg.page_cross then record cpu { halt = cpu.halt + 1 } else cpu

-- `if arg.mode == AddrModeAcc` chooses the accumulator as what the shifts read and write.
abbrev pub read_target : {M : Type 0} → Memory M → Cpu → M → Operand → ℕ × M
read_target mem cpu m arg = if is_acc arg.mode then (cpu.a, m) else mem.read m arg.addr

abbrev pub write_target : {M : Type 0} → Memory M → Cpu → M → Operand → ℕ → Cpu × M
write_target mem cpu m arg v =
    if is_acc arg.mode then (record cpu { a = v }, m) else (cpu, mem.write m arg.addr v)

-- The branches share their body.
unfoldable pub branch : Bool → Cpu → Operand → Cpu
branch taken cpu arg =
    if taken
    then record cpu {
      pc = arg.addr;
      halt = if arg.page_cross then cpu.halt + 1 + 2 else cpu.halt + 1;
    }
    else cpu

-- `adc` and `sbc` after the read of `b`; `a ^ r` takes the sum before it is cut to a byte.
unfoldable pub add_carry : Cpu → ℕ → Cpu
add_carry cpu b =
    let r = u16 (cpu.a + b + carried cpu) in
    let overflow =
      (bit_and (bit_xor cpu.a b) 0x80 == 0) && not (bit_and (bit_xor cpu.a r) 0x80 == 0) in
    let cpu1 = set_flag (set_flag cpu flag_carry (ltb 0xFF r)) flag_overflow overflow in
    set_zn (record cpu1 { a = u8 r }) (u8 r)

unfoldable pub sub_carry : Cpu → ℕ → Cpu
sub_carry cpu b =
    let r = u16 (u16 (cpu.a + 65536 - b) + 65536 - (1 - carried cpu)) in
    let overflow =
      not (bit_and (bit_xor cpu.a b) 0x80 == 0) && not (bit_and (bit_xor cpu.a r) 0x80 == 0) in
    let cpu1 = set_flag (set_flag cpu flag_carry (ltb r 0x100)) flag_overflow overflow in
    set_zn (record cpu1 { a = u8 r }) (u8 r)

-- `cmp`, `cpx` and `cpy` after the read of `b`.
unfoldable pub compare_with : Cpu → ℕ → ℕ → Cpu
compare_with cpu r b =
    let d = u16 (r + 65536 - b) in set_zn (set_flag cpu flag_carry (ltb d 0x100)) (u8 d)

module _ {M : Type 0} (mem : Memory M) where
  unfoldable pub nop : Cpu → M → Operand → Cpu × M
  nop cpu m arg = (cpu, m)

  unfoldable pub lda : Cpu → M → Operand → Cpu × M
  lda cpu m arg =
      let (v, m1) = mem.read m arg.addr in (cross (set_zn (record cpu { a = v }) v) arg, m1)

  unfoldable pub sta : Cpu → M → Operand → Cpu × M
  sta cpu m arg = (cpu, mem.write m arg.addr cpu.a)

  unfoldable pub ldx : Cpu → M → Operand → Cpu × M
  ldx cpu m arg =
      let (v, m1) = mem.read m arg.addr in (cross (set_zn (record cpu { x = v }) v) arg, m1)

  unfoldable pub stx : Cpu → M → Operand → Cpu × M
  stx cpu m arg = (cpu, mem.write m arg.addr cpu.x)

  unfoldable pub ldy : Cpu → M → Operand → Cpu × M
  ldy cpu m arg =
      let (v, m1) = mem.read m arg.addr in (cross (set_zn (record cpu { y = v }) v) arg, m1)

  unfoldable pub sty : Cpu → M → Operand → Cpu × M
  sty cpu m arg = (cpu, mem.write m arg.addr cpu.y)

  unfoldable pub tax : Cpu → M → Operand → Cpu × M
  tax cpu m arg = (set_zn (record cpu { x = cpu.a }) cpu.a, m)

  unfoldable pub txa : Cpu → M → Operand → Cpu × M
  txa cpu m arg = (set_zn (record cpu { a = cpu.x }) cpu.x, m)

  unfoldable pub tay : Cpu → M → Operand → Cpu × M
  tay cpu m arg = (set_zn (record cpu { y = cpu.a }) cpu.a, m)

  unfoldable pub tya : Cpu → M → Operand → Cpu × M
  tya cpu m arg = (set_zn (record cpu { a = cpu.y }) cpu.y, m)

  unfoldable pub tsx : Cpu → M → Operand → Cpu × M
  tsx cpu m arg = (set_zn (record cpu { x = cpu.sp }) cpu.sp, m)

  unfoldable pub txs : Cpu → M → Operand → Cpu × M
  txs cpu m arg = (record cpu { sp = cpu.x }, m)

  unfoldable pub pha : Cpu → M → Operand → Cpu × M
  pha cpu m arg = push_byte mem cpu m cpu.a

  unfoldable pub pla : Cpu → M → Operand → Cpu × M
  pla cpu m arg = let (v, cpu1, m1) = pop_byte mem cpu m in (set_zn (record cpu1 { a = v }) v, m1)

  unfoldable pub php : Cpu → M → Operand → Cpu × M
  php cpu m arg = push_byte mem cpu m (bit_or cpu.p 0x30)

  unfoldable pub plp : Cpu → M → Operand → Cpu × M
  plp cpu m arg = let (v, cpu1, m1) = pop_byte mem cpu m in (record cpu1 { p = v }, m1)

  unfoldable pub inc : Cpu → M → Operand → Cpu × M
  inc cpu m arg =
      let (v, m1) = mem.read m arg.addr in
      let val = u8 (v + 1) in (set_zn cpu val, mem.write m1 arg.addr val)

  unfoldable pub inx : Cpu → M → Operand → Cpu × M
  inx cpu m arg = let v = u8 (cpu.x + 1) in (set_zn (record cpu { x = v }) v, m)

  unfoldable pub iny : Cpu → M → Operand → Cpu × M
  iny cpu m arg = let v = u8 (cpu.y + 1) in (set_zn (record cpu { y = v }) v, m)

  unfoldable pub dec : Cpu → M → Operand → Cpu × M
  dec cpu m arg =
      let (v, m1) = mem.read m arg.addr in
      let val = u8 (v + 255) in (set_zn cpu val, mem.write m1 arg.addr val)

  unfoldable pub dex : Cpu → M → Operand → Cpu × M
  dex cpu m arg = let v = u8 (cpu.x + 255) in (set_zn (record cpu { x = v }) v, m)

  unfoldable pub dey : Cpu → M → Operand → Cpu × M
  dey cpu m arg = let v = u8 (cpu.y + 255) in (set_zn (record cpu { y = v }) v, m)

  unfoldable pub adc : Cpu → M → Operand → Cpu × M
  adc cpu m arg = let (b, m1) = mem.read m arg.addr in (cross (add_carry cpu b) arg, m1)

  unfoldable pub sbc : Cpu → M → Operand → Cpu × M
  sbc cpu m arg = let (b, m1) = mem.read m arg.addr in (cross (sub_carry cpu b) arg, m1)

  unfoldable pub and : Cpu → M → Operand → Cpu × M
  and cpu m arg =
      let (v, m1) = mem.read m arg.addr in
      let r = bit_and cpu.a v in (cross (set_zn (record cpu { a = r }) r) arg, m1)

  unfoldable pub ora : Cpu → M → Operand → Cpu × M
  ora cpu m arg =
      let (v, m1) = mem.read m arg.addr in
      let r = bit_or cpu.a v in (cross (set_zn (record cpu { a = r }) r) arg, m1)

  unfoldable pub eor : Cpu → M → Operand → Cpu × M
  eor cpu m arg =
      let (v, m1) = mem.read m arg.addr in
      let r = bit_xor cpu.a v in (cross (set_zn (record cpu { a = r }) r) arg, m1)

  unfoldable pub asl : Cpu → M → Operand → Cpu × M
  asl cpu m arg =
      let (v, m1) = read_target mem cpu m arg in
      let cpu1 = set_flag cpu flag_carry (not (bit_and v 0x80 == 0)) in
      let r = u8 (shl v 1) in write_target mem (set_zn cpu1 r) m1 arg r

  unfoldable pub lsr : Cpu → M → Operand → Cpu × M
  lsr cpu m arg =
      let (v, m1) = read_target mem cpu m arg in
      let cpu1 = set_flag cpu flag_carry (not (bit_and v 0x01 == 0)) in
      let r = shr v 1 in write_target mem (set_zn cpu1 r) m1 arg r

  unfoldable pub rol : Cpu → M → Operand → Cpu × M
  rol cpu m arg =
      let (v, m1) = read_target mem cpu m arg in
      let carr = carried cpu in
      let cpu1 = set_flag cpu flag_carry (not (bit_and v 0x80 == 0)) in
      let r = bit_or (u8 (shl v 1)) carr in write_target mem (set_zn cpu1 r) m1 arg r

  unfoldable pub ror : Cpu → M → Operand → Cpu × M
  ror cpu m arg =
      let (v, m1) = read_target mem cpu m arg in
      let carr = carried cpu in
      let cpu1 = set_flag cpu flag_carry (not (bit_and v 0x01 == 0)) in
      let r = bit_or (shr v 1) (u8 (shl carr 7)) in write_target mem (set_zn cpu1 r) m1 arg r

  unfoldable pub bit : Cpu → M → Operand → Cpu × M
  bit cpu m arg =
      let (v, m1) = mem.read m arg.addr in
      let cpu1 = set_flag cpu flag_zero (bit_and cpu.a v == 0) in
      let cpu2 = set_flag cpu1 flag_overflow (not (bit_and v 0x40 == 0)) in
      (set_flag cpu2 flag_negative (not (bit_and v 0x80 == 0)), m1)

  unfoldable pub cmp : Cpu → M → Operand → Cpu × M
  cmp cpu m arg = let (b, m1) = mem.read m arg.addr in (cross (compare_with cpu cpu.a b) arg, m1)

  unfoldable pub cpx : Cpu → M → Operand → Cpu × M
  cpx cpu m arg = let (b, m1) = mem.read m arg.addr in (cross (compare_with cpu cpu.x b) arg, m1)

  unfoldable pub cpy : Cpu → M → Operand → Cpu × M
  cpy cpu m arg = let (b, m1) = mem.read m arg.addr in (cross (compare_with cpu cpu.y b) arg, m1)

  unfoldable pub jmp : Cpu → M → Operand → Cpu × M
  jmp cpu m arg = (record cpu { pc = arg.addr }, m)

  unfoldable pub jsr : Cpu → M → Operand → Cpu × M
  jsr cpu m arg =
      let (cpu1, m1) = push_word mem cpu m (u16 (cpu.pc + 65535)) in
      (record cpu1 { pc = arg.addr }, m1)

  unfoldable pub rts : Cpu → M → Operand → Cpu × M
  rts cpu m arg =
      let (addr, cpu1, m1) = pop_word mem cpu m in (record cpu1 { pc = u16 (addr + 1) }, m1)

  unfoldable pub bcc : Cpu → M → Operand → Cpu × M
  bcc cpu m arg = (branch (not (get_flag cpu flag_carry)) cpu arg, m)

  unfoldable pub bcs : Cpu → M → Operand → Cpu × M
  bcs cpu m arg = (branch (get_flag cpu flag_carry) cpu arg, m)

  unfoldable pub beq : Cpu → M → Operand → Cpu × M
  beq cpu m arg = (branch (get_flag cpu flag_zero) cpu arg, m)

  unfoldable pub bmi : Cpu → M → Operand → Cpu × M
  bmi cpu m arg = (branch (get_flag cpu flag_negative) cpu arg, m)

  unfoldable pub bne : Cpu → M → Operand → Cpu × M
  bne cpu m arg = (branch (not (get_flag cpu flag_zero)) cpu arg, m)

  unfoldable pub bpl : Cpu → M → Operand → Cpu × M
  bpl cpu m arg = (branch (not (get_flag cpu flag_negative)) cpu arg, m)

  unfoldable pub bvc : Cpu → M → Operand → Cpu × M
  bvc cpu m arg = (branch (not (get_flag cpu flag_overflow)) cpu arg, m)

  unfoldable pub bvs : Cpu → M → Operand → Cpu × M
  bvs cpu m arg = (branch (get_flag cpu flag_overflow) cpu arg, m)

  unfoldable pub brk : Cpu → M → Operand → Cpu × M
  brk cpu m arg =
      let (cpu1, m1) = push_word mem cpu m (u16 (cpu.pc + 1)) in
      let (cpu2, m2) = push_byte mem cpu1 m1 (bit_or cpu1.p 0x30) in
      let cpu3 = set_flag cpu2 flag_interrupt true in
      let (start, m3) = read_word mem m2 vec_irq in (record cpu3 { pc = start }, m3)

  unfoldable pub clc : Cpu → M → Operand → Cpu × M
  clc cpu m arg = (set_flag cpu flag_carry false, m)

  unfoldable pub cld : Cpu → M → Operand → Cpu × M
  cld cpu m arg = (set_flag cpu flag_decimal false, m)

  unfoldable pub cli : Cpu → M → Operand → Cpu × M
  cli cpu m arg = (set_flag cpu flag_interrupt false, m)

  unfoldable pub clv : Cpu → M → Operand → Cpu × M
  clv cpu m arg = (set_flag cpu flag_overflow false, m)

  unfoldable pub sec : Cpu → M → Operand → Cpu × M
  sec cpu m arg = (set_flag cpu flag_carry true, m)

  unfoldable pub sed : Cpu → M → Operand → Cpu × M
  sed cpu m arg = (set_flag cpu flag_decimal true, m)

  unfoldable pub sei : Cpu → M → Operand → Cpu × M
  sei cpu m arg = (set_flag cpu flag_interrupt true, m)

  unfoldable pub rti : Cpu → M → Operand → Cpu × M
  rti cpu m arg =
      let (v, cpu1, m1) = pop_byte mem cpu m in
      let cpu2 = set_flag (record cpu1 { p = bit_or (bit_and v 0xEF) 0x20 }) flag_break false in
      let (addr, cpu3, m2) = pop_word mem cpu2 m1 in (record cpu3 { pc = addr }, m2)
