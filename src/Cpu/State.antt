-- ===== src/Cpu/State.antt =====
-- cpu/cpu.go (registers, flags, stack, interrupts) and cpu/mem.go.
use dendy.Prelude.{
  ℕ, ◌+◌, ◌-◌, bit_and, bit_or, u8, u16, shl, shr, Bool, true, false, not, ◌==◌, if◌then◌else◌,
}

-- The interface `Memory`, over the type of the memory's state.
pub record Memory (M : Type 0) : Type 0 where
  pub read : M → ℕ → ℕ × M
  pub write : M → ℕ → ℕ → M

pub record Cpu : Type 0 where
  pub x : ℕ  -- uint8
  pub y : ℕ  -- uint8
  pub a : ℕ  -- uint8
  pub p : ℕ  -- uint8
  pub sp : ℕ  -- uint8
  pub pc : ℕ  -- uint16
  pub cycles : ℕ  -- uint64
  pub halt : ℕ  -- int, never negative
  pub interrupt : ℕ  -- uint8

abbrev pub flag_carry : ℕ
flag_carry = 1

abbrev pub flag_zero : ℕ
flag_zero = 2

abbrev pub flag_interrupt : ℕ
flag_interrupt = 4

abbrev pub flag_decimal : ℕ
flag_decimal = 8

abbrev pub flag_break : ℕ
flag_break = 16

abbrev pub flag_overflow : ℕ
flag_overflow = 64

abbrev pub flag_negative : ℕ
flag_negative = 128

abbrev pub interrupt_nmi : ℕ
interrupt_nmi = 1

abbrev pub interrupt_irq : ℕ
interrupt_irq = 2

abbrev pub vec_nmi : ℕ
vec_nmi = 0xFFFA

abbrev pub vec_reset : ℕ
vec_reset = 0xFFFC

abbrev pub vec_irq : ℕ
vec_irq = 0xFFFE

unfoldable pub new : Cpu
new = record { x = 0; y = 0; a = 0; p = 0; sp = 0; pc = 0; cycles = 0; halt = 0; interrupt = 0 }

unfoldable pub get_flag : Cpu → ℕ → Bool
get_flag cpu flag = not (bit_and cpu.p flag == 0)

unfoldable pub set_flag : Cpu → ℕ → Bool → Cpu
set_flag cpu flag true = record cpu { p = bit_or cpu.p flag }
set_flag cpu flag false = record cpu { p = bit_and cpu.p (0xFF - flag) }

unfoldable pub set_zn : Cpu → ℕ → Cpu
set_zn cpu value =
    set_flag (set_flag cpu flag_zero (value == 0)) flag_negative (not (bit_and value 0x80 == 0))

unfoldable pub carried : Cpu → ℕ
carried cpu = if get_flag cpu flag_carry then 1 else 0

module _ {M : Type 0} (mem : Memory M) where
  unfoldable pub read_word : M → ℕ → ℕ × M
  read_word m addr =
      let (lo, m1) = mem.read m addr in
      let (hi, m2) = mem.read m1 (u16 (addr + 1)) in (bit_or (u16 (shl hi 8)) lo, m2)

  unfoldable pub read_word_bug : M → ℕ → ℕ × M
  read_word_bug m addr =
      let addr2 = bit_or (bit_and addr 0xFF00) (u8 (u8 addr + 1)) in
      let (lo, m1) = mem.read m addr in
      let (hi, m2) = mem.read m1 addr2 in (bit_or (u16 (shl hi 8)) lo, m2)

  unfoldable pub push_byte : Cpu → M → ℕ → Cpu × M
  push_byte cpu m data_byte =
      (record cpu { sp = u8 (cpu.sp + 255) }, mem.write m (bit_or 0x0100 cpu.sp) data_byte)

  unfoldable pub pop_byte : Cpu → M → ℕ × Cpu × M
  pop_byte cpu m =
      let sp = u8 (cpu.sp + 1) in
      let (value, m1) = mem.read m (bit_or 0x0100 sp) in (value, record cpu { sp = sp }, m1)

  unfoldable pub push_word : Cpu → M → ℕ → Cpu × M
  push_word cpu m word =
      let (cpu1, m1) = push_byte cpu m (u8 (shr word 8)) in push_byte cpu1 m1 (u8 word)

  unfoldable pub pop_word : Cpu → M → ℕ × Cpu × M
  pop_word cpu m =
      let (lo, cpu1, m1) = pop_byte cpu m in
      let (hi, cpu2, m2) = pop_byte cpu1 m1 in (bit_or (u16 (shl hi 8)) lo, cpu2, m2)

  unfoldable pub fetch_opcode : Cpu → M → ℕ × Cpu × M
  fetch_opcode cpu m =
      let (opcode, m1) = mem.read m cpu.pc in (opcode, record cpu { pc = u16 (cpu.pc + 1) }, m1)

  unfoldable pub reset : Cpu → M → Cpu × M
  reset cpu m =
      let (start, m1) = read_word m vec_reset in
      (
        record cpu {
          pc = start;
          sp = 0xFD;
          p = 0x24;
          a = 0;
          x = 0;
          y = 0;
          cycles = 0;
          halt = 6;
          interrupt = 0;
        },
        m1,
      )

  -- `nmi` and `irq` differ in the vector alone.
  unfoldable pub enter_interrupt : ℕ → Cpu → M → Cpu × M
  enter_interrupt vector cpu m =
      let (cpu1, m1) = push_word cpu m cpu.pc in
      let (cpu2, m2) = push_byte cpu1 m1 cpu1.p in
      let cpu3 = set_flag cpu2 flag_interrupt true in
      let (handler, m3) = read_word m2 vector in
      (record cpu3 { pc = handler; halt = cpu3.halt + 7 }, m3)

  unfoldable pub nmi : Cpu → M → Cpu × M
  nmi = enter_interrupt vec_nmi

  unfoldable pub irq : Cpu → M → Cpu × M
  irq = enter_interrupt vec_irq

unfoldable pub trigger_nmi : Cpu → Cpu
trigger_nmi cpu = record cpu { interrupt = interrupt_nmi }

unfoldable pub trigger_irq : Cpu → Cpu
trigger_irq cpu =
    if get_flag cpu flag_interrupt then cpu else record cpu { interrupt = interrupt_irq }
