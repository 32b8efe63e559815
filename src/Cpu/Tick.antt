-- ===== src/Cpu/Tick.antt =====
-- cpu/cpu.go, `Tick`: one cycle of the processor.
use dendy.Prelude.{
  ℕ, ◌+◌, ◌-◌, u64, Bool, false, ◌==◌, ltb, if◌then◌else◌, Option, none, some, List, get_elem?,
}
use dendy.Cpu.State.{Memory, Cpu, interrupt_nmi, interrupt_irq, nmi, irq, fetch_opcode}
use dendy.Cpu.Addr.{Operand, fetch_operand}
use dendy.Cpu.Official
use dendy.Cpu.Illegal
use dendy.Cpu.Opcodes.{Handler, Instruction, opcodes}

-- The panic on an opcode that the table does not have.
unfoldable pub decode_in : List (Option Instruction) → ℕ → Option Instruction
decode_in slots opcode = elim (get_elem? slots opcode) [
  | none ↦ none
  | some slot ↦ elim slot [
    | none ↦ none
    | some instr ↦ if instr.size == 0 then none else some instr
  ]
]

unfoldable pub decode : ℕ → Option Instruction
decode opcode = decode_in opcodes opcode

module _ {M : Type 0} (mem : Memory M) where
  -- `instr.handler(cpu, mem, arg)`
  unfoldable pub exec : Handler → Cpu → M → Operand → Cpu × M
  exec Handler.nop = Official.nop mem
  exec Handler.brk = Official.brk mem
  exec Handler.lda = Official.lda mem
  exec Handler.sta = Official.sta mem
  exec Handler.ldx = Official.ldx mem
  exec Handler.stx = Official.stx mem
  exec Handler.ldy = Official.ldy mem
  exec Handler.sty = Official.sty mem
  exec Handler.tax = Official.tax mem
  exec Handler.tay = Official.tay mem
  exec Handler.txa = Official.txa mem
  exec Handler.tya = Official.tya mem
  exec Handler.tsx = Official.tsx mem
  exec Handler.txs = Official.txs mem
  exec Handler.pha = Official.pha mem
  exec Handler.php = Official.php mem
  exec Handler.pla = Official.pla mem
  exec Handler.plp = Official.plp mem
  exec Handler.adc = Official.adc mem
  exec Handler.sbc = Official.sbc mem
  exec Handler.and = Official.and mem
  exec Handler.ora = Official.ora mem
  exec Handler.eor = Official.eor mem
  exec Handler.cmp = Official.cmp mem
  exec Handler.cpx = Official.cpx mem
  exec Handler.cpy = Official.cpy mem
  exec Handler.bit = Official.bit mem
  exec Handler.asl = Official.asl mem
  exec Handler.lsr = Official.lsr mem
  exec Handler.rol = Official.rol mem
  exec Handler.ror = Official.ror mem
  exec Handler.inc = Official.inc mem
  exec Handler.inx = Official.inx mem
  exec Handler.iny = Official.iny mem
  exec Handler.dex = Official.dex mem
  exec Handler.dey = Official.dey mem
  exec Handler.dec = Official.dec mem
  exec Handler.jmp = Official.jmp mem
  exec Handler.jsr = Official.jsr mem
  exec Handler.rts = Official.rts mem
  exec Handler.rti = Official.rti mem
  exec Handler.bpl = Official.bpl mem
  exec Handler.bmi = Official.bmi mem
  exec Handler.bvc = Official.bvc mem
  exec Handler.bvs = Official.bvs mem
  exec Handler.bcc = Official.bcc mem
  exec Handler.bcs = Official.bcs mem
  exec Handler.bne = Official.bne mem
  exec Handler.beq = Official.beq mem
  exec Handler.sec = Official.sec mem
  exec Handler.sei = Official.sei mem
  exec Handler.clc = Official.clc mem
  exec Handler.sed = Official.sed mem
  exec Handler.cli = Official.cli mem
  exec Handler.clv = Official.clv mem
  exec Handler.cld = Official.cld mem
  exec Handler.xsbc = Illegal.xsbc mem
  exec Handler.xdcp = Illegal.xdcp mem
  exec Handler.xlax = Illegal.xlax mem
  exec Handler.xnop = Illegal.xnop mem
  exec Handler.xrla = Illegal.xrla mem
  exec Handler.xrra = Illegal.xrra mem
  exec Handler.xsax = Illegal.xsax mem
  exec Handler.xslo = Illegal.xslo mem
  exec Handler.xsre = Illegal.xsre mem
  exec Handler.xisb = Illegal.xisb mem

  -- The `switch cpu.interrupt`.
  unfoldable pub take_interrupt : Cpu → M → Cpu × M
  take_interrupt cpu m =
      if cpu.interrupt == interrupt_irq
      then (let (cpu1, m1) = irq mem cpu m in (record cpu1 { interrupt = 0 }, m1))
      else if cpu.interrupt == interrupt_nmi
      then (let (cpu1, m1) = nmi mem cpu m in (record cpu1 { interrupt = 0 }, m1))
      else (cpu, m)

  -- Fetch, decode and execute.
  unfoldable pub run_instruction : Cpu → M → Option (Cpu × M)
  run_instruction cpu m =
      let (opcode, cpu1, m1) = fetch_opcode mem cpu m in
      elim (decode opcode) [
        | none ↦ none
        | some instr ↦
            let (arg, cpu2, m2) = fetch_operand mem cpu1 m1 instr.mode in
            let (cpu3, m3) = exec instr.handler cpu2 m2 arg in
            some (record cpu3 { halt = cpu3.halt + (instr.cycles - 1) }, m3)
      ]

  -- The flag tells that the wait after an instruction has come to its end.
  unfoldable pub tick : Cpu → M → Option (Cpu × M × Bool)
  tick cpu m =
      let cpu1 = record cpu { cycles = u64 (cpu.cycles + 1) } in
      if ltb 0 cpu1.halt
      then some (record cpu1 { halt = cpu1.halt - 1 }, m, cpu1.halt - 1 == 0)
      else (let (cpu2, m2) = take_interrupt cpu1 m in
          elim (run_instruction cpu2 m2) [ none ↦ none | some (cpu3, m3) ↦ some (cpu3, m3, false) ])
