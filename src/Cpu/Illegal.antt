-- ===== src/Cpu/Illegal.antt =====
-- cpu/illegal.go, the handlers of the unofficial instructions.
use dendy.Prelude.{◌+◌, ◌-◌, bit_and, bit_or, bit_xor, u8, u16, shl, shr, not, ◌&&◌, ◌==◌, ltb}
use dendy.Cpu.State.{Memory, Cpu, flag_carry, flag_overflow, set_flag, set_zn, carried}
use dendy.Cpu.Addr.{Operand}
use dendy.Cpu.Official.{cross, sbc}

module _ {M : Type 0} (mem : Memory M) where
  unfoldable pub xnop : Cpu → M → Operand → Cpu × M
  xnop cpu m arg = (cross cpu arg, m)

  unfoldable pub xsbc : Cpu → M → Operand → Cpu × M
  xsbc cpu m arg = sbc mem cpu m arg

  unfoldable pub xdcp : Cpu → M → Operand → Cpu × M
  xdcp cpu m arg =
      let (v, m1) = mem.read m arg.addr in
      let val = u8 (v + 255) in
      let m2 = mem.write m1 arg.addr val in
      let d = u16 (cpu.a + 65536 - val) in
      (set_zn (set_flag cpu flag_carry (ltb d 0x100)) (u8 d), m2)

  unfoldable pub xisb : Cpu → M → Operand → Cpu × M
  xisb cpu m arg =
      let (v, m1) = mem.read m arg.addr in
      let b = u8 (v + 1) in
      let r = u16 (u16 (cpu.a + 65536 - b) + 65536 - (1 - carried cpu)) in
      let overflow =
        not (bit_and (bit_xor cpu.a b) 0x80 == 0) && not (bit_and (bit_xor cpu.a r) 0x80 == 0) in
      let m2 = mem.write m1 arg.addr b in
      let cpu1 = set_flag (set_flag cpu flag_carry (ltb r 0x100)) flag_overflow overflow in
      (set_zn (record cpu1 { a = u8 r }) (u8 r), m2)

  unfoldable pub xlax : Cpu → M → Operand → Cpu × M
  xlax cpu m arg =
      let (v, m1) = mem.read m arg.addr in (cross (set_zn (record cpu { a = v; x = v }) v) arg, m1)

  unfoldable pub xrla : Cpu → M → Operand → Cpu × M
  xrla cpu m arg =
      let (v, m1) = mem.read m arg.addr in
      let carr = carried cpu in
      let cpu1 = set_flag cpu flag_carry (not (bit_and v 0x80 == 0)) in
      let val = bit_or (u8 (shl v 1)) carr in
      let m2 = mem.write m1 arg.addr val in
      let r = bit_and cpu1.a val in (set_zn (record cpu1 { a = r }) r, m2)

  unfoldable pub xsax : Cpu → M → Operand → Cpu × M
  xsax cpu m arg = (cpu, mem.write m arg.addr (bit_and cpu.a cpu.x))

  unfoldable pub xslo : Cpu → M → Operand → Cpu × M
  xslo cpu m arg =
      let (v, m1) = mem.read m arg.addr in
      let cpu1 = set_flag cpu flag_carry (not (bit_and v 0x80 == 0)) in
      let val = u8 (shl v 1) in
      let m2 = mem.write m1 arg.addr val in
      let r = bit_or cpu1.a val in (set_zn (record cpu1 { a = r }) r, m2)

  unfoldable pub xsre : Cpu → M → Operand → Cpu × M
  xsre cpu m arg =
      let (v, m1) = mem.read m arg.addr in
      let cpu1 = set_flag cpu flag_carry (not (bit_and v 0x01 == 0)) in
      let val = shr v 1 in
      let m2 = mem.write m1 arg.addr val in
      let r = bit_xor cpu1.a val in (set_zn (record cpu1 { a = r }) r, m2)

  unfoldable pub xrra : Cpu → M → Operand → Cpu × M
  xrra cpu m arg =
      let (v, m1) = mem.read m arg.addr in
      let carr = carried cpu in
      let cpu1 = set_flag cpu flag_carry (not (bit_and v 0x01 == 0)) in
      let b = bit_or (shr v 1) (u8 (shl carr 7)) in
      let m2 = mem.write m1 arg.addr b in
      let r = u16 (cpu1.a + b + carried cpu1) in
      let overflow =
        (bit_and (bit_xor cpu1.a b) 0x80 == 0) && not (bit_and (bit_xor cpu1.a r) 0x80 == 0) in
      let cpu2 = set_flag (set_flag cpu1 flag_overflow overflow) flag_carry (ltb 0xFF r) in
      (set_zn (record cpu2 { a = u8 r }) (u8 r), m2)
