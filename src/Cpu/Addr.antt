-- ===== src/Cpu/Addr.antt =====
-- cpu/addr.go, the addressing modes.
use dendy.Prelude.{ℕ, ◌+◌, bit_and, bit_or, u16, Bool, true, false, not, ◌==◌, if◌then◌else◌}
use dendy.Cpu.State.{Memory, Cpu, read_word, read_word_bug}

pub data AddrMode : Type 0 where
  imp acc imm zp zp_x zp_y abs abs_x abs_y ind ind_x ind_y rel : AddrMode

pub record Operand : Type 0 where
  pub mode : AddrMode
  pub addr : ℕ
  pub page_cross : Bool

abbrev pub is_acc : AddrMode → Bool
is_acc acc = true
is_acc _ = false

-- `addr & 0xFF00 != other & 0xFF00`
abbrev pub pages_differ : ℕ → ℕ → Bool
pages_differ addr other = not (bit_and addr 0xFF00 == bit_and other 0xFF00)

-- `rel |= 0xFF00` if bit 7 is set.
abbrev pub sign_extend : ℕ → ℕ
sign_extend byte = if bit_and byte 0x80 == 0 then byte else bit_or byte 0xFF00

module _ {M : Type 0} (mem : Memory M) where
  unfoldable pub fetch_operand : Cpu → M → AddrMode → Operand × Cpu × M
  fetch_operand cpu m imp = (record { mode = imp; addr = 0; page_cross = false }, cpu, m)
  fetch_operand cpu m acc = (record { mode = acc; addr = 0; page_cross = false }, cpu, m)
  fetch_operand cpu m imm = (
    record { mode = imm; addr = cpu.pc; page_cross = false },
    record cpu { pc = u16 (cpu.pc + 1) },
    m,
  )
  fetch_operand cpu m zp =
      let (addr, m1) = mem.read m cpu.pc in
      (
        record { mode = zp; addr = addr; page_cross = false },
        record cpu { pc = u16 (cpu.pc + 1) },
        m1,
      )
  fetch_operand cpu m zp_x =
      let (base, m1) = mem.read m cpu.pc in
      (
        record { mode = zp_x; addr = bit_and (u16 (base + cpu.x)) 0x00FF; page_cross = false },
        record cpu { pc = u16 (cpu.pc + 1) },
        m1,
      )
  fetch_operand cpu m zp_y =
      let (base, m1) = mem.read m cpu.pc in
      (
        record { mode = zp_y; addr = bit_and (u16 (base + cpu.y)) 0x00FF; page_cross = false },
        record cpu { pc = u16 (cpu.pc + 1) },
        m1,
      )
  fetch_operand cpu m abs =
      let (addr, m1) = read_word mem m cpu.pc in
      (
        record { mode = abs; addr = addr; page_cross = false },
        record cpu { pc = u16 (cpu.pc + 2) },
        m1,
      )
  fetch_operand cpu m abs_x =
      let (addr, m1) = read_word mem m cpu.pc in
      let addr_x = u16 (addr + cpu.x) in
      (
        record { mode = abs_x; addr = addr_x; page_cross = pages_differ addr addr_x },
        record cpu { pc = u16 (cpu.pc + 2) },
        m1,
      )
  fetch_operand cpu m abs_y =
      let (addr, m1) = read_word mem m cpu.pc in
      let addr_y = u16 (addr + cpu.y) in
      (
        record { mode = abs_y; addr = addr_y; page_cross = pages_differ addr addr_y },
        record cpu { pc = u16 (cpu.pc + 2) },
        m1,
      )
  fetch_operand cpu m ind =
      let (ptr_addr, m1) = read_word mem m cpu.pc in
      let (addr, m2) = read_word_bug mem m1 ptr_addr in
      (
        record { mode = ind; addr = addr; page_cross = false },
        record cpu { pc = u16 (cpu.pc + 2) },
        m2,
      )
  fetch_operand cpu m ind_x =
      let (base, m1) = mem.read m cpu.pc in
      let ptr_addr = bit_and (u16 (base + cpu.x)) 0x00FF in
      let (addr, m2) = read_word_bug mem m1 ptr_addr in
      (
        record { mode = ind_x; addr = addr; page_cross = false },
        record cpu { pc = u16 (cpu.pc + 1) },
        m2,
      )
  fetch_operand cpu m ind_y =
      let (ptr_addr, m1) = mem.read m cpu.pc in
      let (addr, m2) = read_word_bug mem m1 ptr_addr in
      let addr_y = u16 (addr + cpu.y) in
      (
        record { mode = ind_y; addr = addr_y; page_cross = pages_differ addr_y addr },
        record cpu { pc = u16 (cpu.pc + 1) },
        m2,
      )
  fetch_operand cpu m rel =
      let (byte, m1) = mem.read m cpu.pc in
      let next = u16 (cpu.pc + 1) in
      let addr = u16 (next + sign_extend byte) in
      (
        record { mode = rel; addr = addr; page_cross = pages_differ addr next },
        record cpu { pc = next },
        m1,
      )
