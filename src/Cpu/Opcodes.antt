-- ===== src/Cpu/Opcodes.antt =====
-- cpu/opcodes.go, the instruction table. A handler is named by a constructor; `Tick.exec` runs it.
use Prim.Native.String.{String}
use mathlib.Core.List.{foldl}
use dendy.Prelude.{ℕ, Option, none, some, List, [], ◌∷◌, set, replicate}
use dendy.Cpu.Addr.{AddrMode}

pub data Handler : Type 0 where
  nop brk lda sta ldx stx ldy sty tax tay txa tya tsx txs pha php pla plp adc sbc and ora eor cmp
        cpx cpy bit asl lsr rol ror inc inx iny dex dey dec jmp jsr rts rti bpl bmi bvc bvs bcc bcs
        bne beq sec sei clc sed cli clv cld xsbc xdcp xlax xnop xrla xrra xsax xslo xsre xisb :
      Handler

pub record Instruction : Type 0 where
  pub handler : Handler
  pub name : String
  pub opcode : ℕ
  pub mode : AddrMode
  pub size : ℕ
  pub cycles : ℕ

abbrev row : Handler → String → ℕ → AddrMode → ℕ → ℕ → Instruction
row handler name opcode mode size cycles = record {
  handler = handler;
  name = name;
  opcode = opcode;
  mode = mode;
  size = size;
  cycles = cycles;
}

-- The official instructions of the table.
unfoldable pub official_table : List Instruction
official_table =
    row Handler.nop "NOP" 0xEA AddrMode.imp 1 2
    ∷ row Handler.brk "BRK" 0x00 AddrMode.imp 2 7
    ∷ row Handler.lda "LDA" 0xA9 AddrMode.imm 2 2
    ∷ row Handler.lda "LDA" 0xA5 AddrMode.zp 2 3
    ∷ row Handler.lda "LDA" 0xB5 AddrMode.zp_x 2 4
    ∷ row Handler.lda "LDA" 0xAD AddrMode.abs 3 4
    ∷ row Handler.lda "LDA" 0xBD AddrMode.abs_x 3 4
    ∷ row Handler.lda "LDA" 0xB9 AddrMode.abs_y 3 4
    ∷ row Handler.lda "LDA" 0xA1 AddrMode.ind_x 2 6
    ∷ row Handler.lda "LDA" 0xB1 AddrMode.ind_y 2 5
    ∷ row Handler.sta "STA" 0x85 AddrMode.zp 2 3
    ∷ row Handler.sta "STA" 0x95 AddrMode.zp_x 2 4
    ∷ row Handler.sta "STA" 0x8D AddrMode.abs 3 4
    ∷ row Handler.sta "STA" 0x9D AddrMode.abs_x 3 5
    ∷ row Handler.sta "STA" 0x99 AddrMode.abs_y 3 5
    ∷ row Handler.sta "STA" 0x81 AddrMode.ind_x 2 6
    ∷ row Handler.sta "STA" 0x91 AddrMode.ind_y 2 6
    ∷ row Handler.ldx "LDX" 0xA2 AddrMode.imm 2 2
    ∷ row Handler.ldx "LDX" 0xA6 AddrMode.zp 2 3
    ∷ row Handler.ldx "LDX" 0xB6 AddrMode.zp_y 2 4
    ∷ row Handler.ldx "LDX" 0xAE AddrMode.abs 3 4
    ∷ row Handler.ldx "LDX" 0xBE AddrMode.abs_y 3 4
    ∷ row Handler.stx "STX" 0x86 AddrMode.zp 2 3
    ∷ row Handler.stx "STX" 0x96 AddrMode.zp_y 2 4
    ∷ row Handler.stx "STX" 0x8E AddrMode.abs 3 4
    ∷ row Handler.ldy "LDY" 0xA0 AddrMode.imm 2 2
    ∷ row Handler.ldy "LDY" 0xA4 AddrMode.zp 2 3
    ∷ row Handler.ldy "LDY" 0xB4 AddrMode.zp_x 2 4
    ∷ row Handler.ldy "LDY" 0xAC AddrMode.abs 3 4
    ∷ row Handler.ldy "LDY" 0xBC AddrMode.abs_x 3 4
    ∷ row Handler.sty "STY" 0x84 AddrMode.zp 2 3
    ∷ row Handler.sty "STY" 0x94 AddrMode.zp_x 2 4
    ∷ row Handler.sty "STY" 0x8C AddrMode.abs 3 4
    ∷ row Handler.tax "TAX" 0xAA AddrMode.imp 1 2
    ∷ row Handler.tay "TAY" 0xA8 AddrMode.imp 1 2
    ∷ row Handler.txa "TXA" 0x8A AddrMode.imp 1 2
    ∷ row Handler.tya "TYA" 0x98 AddrMode.imp 1 2
    ∷ row Handler.tsx "TSX" 0xBA AddrMode.imp 1 2
    ∷ row Handler.txs "TXS" 0x9A AddrMode.imp 1 2
    ∷ row Handler.pha "PHA" 0x48 AddrMode.imp 1 3
    ∷ row Handler.php "PHP" 0x08 AddrMode.imp 1 3
    ∷ row Handler.pla "PLA" 0x68 AddrMode.imp 1 4
    ∷ row Handler.plp "PLP" 0x28 AddrMode.imp 1 4
    ∷ row Handler.adc "ADC" 0x69 AddrMode.imm 2 2
    ∷ row Handler.adc "ADC" 0x65 AddrMode.zp 2 3
    ∷ row Handler.adc "ADC" 0x75 AddrMode.zp_x 2 4
    ∷ row Handler.adc "ADC" 0x6D AddrMode.abs 3 4
    ∷ row Handler.adc "ADC" 0x7D AddrMode.abs_x 3 4
    ∷ row Handler.adc "ADC" 0x79 AddrMode.abs_y 3 4
    ∷ row Handler.adc "ADC" 0x61 AddrMode.ind_x 2 6
    ∷ row Handler.adc "ADC" 0x71 AddrMode.ind_y 2 5
    ∷ row Handler.sbc "SBC" 0xE9 AddrMode.imm 2 2
    ∷ row Handler.sbc "SBC" 0xE5 AddrMode.zp 2 3
    ∷ row Handler.sbc "SBC" 0xF5 AddrMode.zp_x 2 4
    ∷ row Handler.sbc "SBC" 0xED AddrMode.abs 3 4
    ∷ row Handler.sbc "SBC" 0xFD AddrMode.abs_x 3 4
    ∷ row Handler.sbc "SBC" 0xF9 AddrMode.abs_y 3 4
    ∷ row Handler.sbc "SBC" 0xE1 AddrMode.ind_x 2 6
    ∷ row Handler.sbc "SBC" 0xF1 AddrMode.ind_y 2 5
    ∷ row Handler.and "AND" 0x29 AddrMode.imm 2 2
    ∷ row Handler.and "AND" 0x25 AddrMode.zp 2 3
    ∷ row Handler.and "AND" 0x35 AddrMode.zp_x 2 4
    ∷ row Handler.and "AND" 0x2D AddrMode.abs 3 4
    ∷ row Handler.and "AND" 0x3D AddrMode.abs_x 3 4
    ∷ row Handler.and "AND" 0x39 AddrMode.abs_y 3 4
    ∷ row Handler.and "AND" 0x21 AddrMode.ind_x 2 6
    ∷ row Handler.and "AND" 0x31 AddrMode.ind_y 2 5
    ∷ row Handler.ora "ORA" 0x09 AddrMode.imm 2 2
    ∷ row Handler.ora "ORA" 0x05 AddrMode.zp 2 3
    ∷ row Handler.ora "ORA" 0x15 AddrMode.zp_x 2 4
    ∷ row Handler.ora "ORA" 0x0D AddrMode.abs 3 4
    ∷ row Handler.ora "ORA" 0x1D AddrMode.abs_x 3 4
    ∷ row Handler.ora "ORA" 0x19 AddrMode.abs_y 3 4
    ∷ row Handler.ora "ORA" 0x01 AddrMode.ind_x 2 6
    ∷ row Handler.ora "ORA" 0x11 AddrMode.ind_y 2 5
    ∷ row Handler.eor "EOR" 0x49 AddrMode.imm 2 2
    ∷ row Handler.eor "EOR" 0x45 AddrMode.zp 2 3
    ∷ row Handler.eor "EOR" 0x55 AddrMode.zp_x 2 4
    ∷ row Handler.eor "EOR" 0x4D AddrMode.abs 3 4
    ∷ row Handler.eor "EOR" 0x5D AddrMode.abs_x 3 4
    ∷ row Handler.eor "EOR" 0x59 AddrMode.abs_y 3 4
    ∷ row Handler.eor "EOR" 0x41 AddrMode.ind_x 2 6
    ∷ row Handler.eor "EOR" 0x51 AddrMode.ind_y 2 5
    ∷ row Handler.cmp "CMP" 0xC9 AddrMode.imm 2 2
    ∷ row Handler.cmp "CMP" 0xC5 AddrMode.zp 2 3
    ∷ row Handler.cmp "CMP" 0xD5 AddrMode.zp_x 2 4
    ∷ row Handler.cmp "CMP" 0xCD AddrMode.abs 3 4
    ∷ row Handler.cmp "CMP" 0xDD AddrMode.abs_x 3 4
    ∷ row Handler.cmp "CMP" 0xD9 AddrMode.abs_y 3 4
    ∷ row Handler.cmp "CMP" 0xC1 AddrMode.ind_x 2 6
    ∷ row Handler.cmp "CMP" 0xD1 AddrMode.ind_y 2 5
    ∷ row Handler.cpx "CPX" 0xE0 AddrMode.imm 2 2
    ∷ row Handler.cpx "CPX" 0xE4 AddrMode.zp 2 3
    ∷ row Handler.cpx "CPX" 0xEC AddrMode.abs 3 4
    ∷ row Handler.cpy "CPY" 0xC0 AddrMode.imm 2 2
    ∷ row Handler.cpy "CPY" 0xC4 AddrMode.zp 2 3
    ∷ row Handler.cpy "CPY" 0xCC AddrMode.abs 3 4
    ∷ row Handler.bit "BIT" 0x24 AddrMode.zp 2 3
    ∷ row Handler.bit "BIT" 0x2C AddrMode.abs 3 4
    ∷ row Handler.asl "ASL" 0x0A AddrMode.acc 1 2
    ∷ row Handler.asl "ASL" 0x06 AddrMode.zp 2 5
    ∷ row Handler.asl "ASL" 0x16 AddrMode.zp_x 2 6
    ∷ row Handler.asl "ASL" 0x0E AddrMode.abs 3 6
    ∷ row Handler.asl "ASL" 0x1E AddrMode.abs_x 3 7
    ∷ row Handler.lsr "LSR" 0x4A AddrMode.acc 1 2
    ∷ row Handler.lsr "LSR" 0x46 AddrMode.zp 2 5
    ∷ row Handler.lsr "LSR" 0x56 AddrMode.zp_x 2 6
    ∷ row Handler.lsr "LSR" 0x4E AddrMode.abs 3 6
    ∷ row Handler.lsr "LSR" 0x5E AddrMode.abs_x 3 7
    ∷ row Handler.rol "ROL" 0x2A AddrMode.acc 1 2
    ∷ row Handler.rol "ROL" 0x26 AddrMode.zp 2 5
    ∷ row Handler.rol "ROL" 0x36 AddrMode.zp_x 2 6
    ∷ row Handler.rol "ROL" 0x2E AddrMode.abs 3 6
    ∷ row Handler.rol "ROL" 0x3E AddrMode.abs_x 3 7
    ∷ row Handler.ror "ROR" 0x6A AddrMode.acc 1 2
    ∷ row Handler.ror "ROR" 0x66 AddrMode.zp 2 5
    ∷ row Handler.ror "ROR" 0x76 AddrMode.zp_x 2 6
    ∷ row Handler.ror "ROR" 0x6E AddrMode.abs 3 6
    ∷ row Handler.ror "ROR" 0x7E AddrMode.abs_x 3 7
    ∷ row Handler.inc "INC" 0xE6 AddrMode.zp 2 5
    ∷ row Handler.inc "INC" 0xF6 AddrMode.zp_x 2 6
    ∷ row Handler.inc "INC" 0xEE AddrMode.abs 3 6
    ∷ row Handler.inc "INC" 0xFE AddrMode.abs_x 3 7
    ∷ row Handler.inx "INX" 0xE8 AddrMode.imp 1 2
    ∷ row Handler.iny "INY" 0xC8 AddrMode.imp 1 2
    ∷ row Handler.dex "DEX" 0xCA AddrMode.imp 1 2
    ∷ row Handler.dey "DEY" 0x88 AddrMode.imp 1 2
    ∷ row Handler.dec "DEC" 0xC6 AddrMode.zp 2 5
    ∷ row Handler.dec "DEC" 0xD6 AddrMode.zp_x 2 6
    ∷ row Handler.dec "DEC" 0xCE AddrMode.abs 3 6
    ∷ row Handler.dec "DEC" 0xDE AddrMode.abs_x 3 7
    ∷ row Handler.jmp "JMP" 0x4C AddrMode.abs 3 3
    ∷ row Handler.jmp "JMP" 0x6C AddrMode.ind 3 5
    ∷ row Handler.jsr "JSR" 0x20 AddrMode.abs 3 6
    ∷ row Handler.rts "RTS" 0x60 AddrMode.imp 1 6
    ∷ row Handler.rti "RTI" 0x40 AddrMode.imp 1 6
    ∷ row Handler.bpl "BPL" 0x10 AddrMode.rel 2 2
    ∷ row Handler.bmi "BMI" 0x30 AddrMode.rel 2 2
    ∷ row Handler.bvc "BVC" 0x50 AddrMode.rel 2 2
    ∷ row Handler.bvs "BVS" 0x70 AddrMode.rel 2 2
    ∷ row Handler.bcc "BCC" 0x90 AddrMode.rel 2 2
    ∷ row Handler.bcs "BCS" 0xB0 AddrMode.rel 2 2
    ∷ row Handler.bne "BNE" 0xD0 AddrMode.rel 2 2
    ∷ row Handler.beq "BEQ" 0xF0 AddrMode.rel 2 2
    ∷ row Handler.sec "SEC" 0x38 AddrMode.imp 1 2
    ∷ row Handler.sei "SEI" 0x78 AddrMode.imp 1 2
    ∷ row Handler.clc "CLC" 0x18 AddrMode.imp 1 2
    ∷ row Handler.sed "SED" 0xF8 AddrMode.imp 1 2
    ∷ row Handler.cli "CLI" 0x58 AddrMode.imp 1 2
    ∷ row Handler.clv "CLV" 0xB8 AddrMode.imp 1 2
    ∷ row Handler.cld "CLD" 0xD8 AddrMode.imp 1 2
    ∷ []

-- The unofficial ones, and those that are there for the disassembler.
unfoldable pub illegal_table : List Instruction
illegal_table =
    row Handler.xsbc "*SBC" 0xEB AddrMode.imm 2 2
    ∷ row Handler.xdcp "*DCP" 0xC7 AddrMode.zp 2 5
    ∷ row Handler.xdcp "*DCP" 0xD7 AddrMode.zp_x 2 6
    ∷ row Handler.xdcp "*DCP" 0xCF AddrMode.abs 3 6
    ∷ row Handler.xdcp "*DCP" 0xDF AddrMode.abs_x 3 7
    ∷ row Handler.xdcp "*DCP" 0xDB AddrMode.abs_y 3 7
    ∷ row Handler.xdcp "*DCP" 0xC3 AddrMode.ind_x 2 8
    ∷ row Handler.xdcp "*DCP" 0xD3 AddrMode.ind_y 2 8
    ∷ row Handler.xlax "*LAX" 0xA7 AddrMode.zp 2 3
    ∷ row Handler.xlax "*LAX" 0xB7 AddrMode.zp_y 2 4
    ∷ row Handler.xlax "*LAX" 0xAF AddrMode.abs 3 4
    ∷ row Handler.xlax "*LAX" 0xBF AddrMode.abs_y 3 4
    ∷ row Handler.xlax "*LAX" 0xA3 AddrMode.ind_x 2 6
    ∷ row Handler.xlax "*LAX" 0xB3 AddrMode.ind_y 2 5
    ∷ row Handler.xnop "*NOP" 0x1A AddrMode.imp 1 2
    ∷ row Handler.xnop "*NOP" 0x3A AddrMode.imp 1 2
    ∷ row Handler.xnop "*NOP" 0x5A AddrMode.imp 1 2
    ∷ row Handler.xnop "*NOP" 0x7A AddrMode.imp 1 2
    ∷ row Handler.xnop "*NOP" 0xDA AddrMode.imp 1 2
    ∷ row Handler.xnop "*NOP" 0xFA AddrMode.imp 1 2
    ∷ row Handler.xnop "*NOP" 0x80 AddrMode.imm 2 2
    ∷ row Handler.xnop "*NOP" 0x82 AddrMode.imm 2 2
    ∷ row Handler.xnop "*NOP" 0x89 AddrMode.imm 2 2
    ∷ row Handler.xnop "*NOP" 0xC2 AddrMode.imm 2 2
    ∷ row Handler.xnop "*NOP" 0xE2 AddrMode.imm 2 2
    ∷ row Handler.xnop "*NOP" 0x04 AddrMode.zp 2 3
    ∷ row Handler.xnop "*NOP" 0x44 AddrMode.zp 2 3
    ∷ row Handler.xnop "*NOP" 0x64 AddrMode.zp 2 3
    ∷ row Handler.xnop "*NOP" 0x14 AddrMode.zp_x 2 4
    ∷ row Handler.xnop "*NOP" 0x34 AddrMode.zp_x 2 4
    ∷ row Handler.xnop "*NOP" 0x54 AddrMode.zp_x 2 4
    ∷ row Handler.xnop "*NOP" 0x74 AddrMode.zp_x 2 4
    ∷ row Handler.xnop "*NOP" 0xD4 AddrMode.zp_x 2 4
    ∷ row Handler.xnop "*NOP" 0xF4 AddrMode.zp_x 2 4
    ∷ row Handler.xnop "*NOP" 0x0C AddrMode.abs 3 4
    ∷ row Handler.xnop "*NOP" 0x1C AddrMode.abs_x 3 4
    ∷ row Handler.xnop "*NOP" 0x3C AddrMode.abs_x 3 4
    ∷ row Handler.xnop "*NOP" 0x5C AddrMode.abs_x 3 4
    ∷ row Handler.xnop "*NOP" 0x7C AddrMode.abs_x 3 4
    ∷ row Handler.xnop "*NOP" 0xDC AddrMode.abs_x 3 4
    ∷ row Handler.xnop "*NOP" 0xFC AddrMode.abs_x 3 4
    ∷ row Handler.xrla "*RLA" 0x27 AddrMode.zp 2 5
    ∷ row Handler.xrla "*RLA" 0x37 AddrMode.zp_x 2 6
    ∷ row Handler.xrla "*RLA" 0x2F AddrMode.abs 3 6
    ∷ row Handler.xrla "*RLA" 0x3F AddrMode.abs_x 3 7
    ∷ row Handler.xrla "*RLA" 0x3B AddrMode.abs_y 3 7
    ∷ row Handler.xrla "*RLA" 0x23 AddrMode.ind_x 2 8
    ∷ row Handler.xrla "*RLA" 0x33 AddrMode.ind_y 2 8
    ∷ row Handler.xrra "*RRA" 0x67 AddrMode.zp 2 5
    ∷ row Handler.xrra "*RRA" 0x77 AddrMode.zp_x 2 6
    ∷ row Handler.xrra "*RRA" 0x6F AddrMode.abs 3 6
    ∷ row Handler.xrra "*RRA" 0x7F AddrMode.abs_x 3 7
    ∷ row Handler.xrra "*RRA" 0x7B AddrMode.abs_y 3 7
    ∷ row Handler.xrra "*RRA" 0x63 AddrMode.ind_x 2 8
    ∷ row Handler.xrra "*RRA" 0x73 AddrMode.ind_y 2 8
    ∷ row Handler.xsax "*SAX" 0x87 AddrMode.zp 2 3
    ∷ row Handler.xsax "*SAX" 0x97 AddrMode.zp_y 2 4
    ∷ row Handler.xsax "*SAX" 0x8F AddrMode.abs 3 4
    ∷ row Handler.xsax "*SAX" 0x83 AddrMode.ind_x 2 6
    ∷ row Handler.xslo "*SLO" 0x07 AddrMode.zp 2 5
    ∷ row Handler.xslo "*SLO" 0x17 AddrMode.zp_x 2 6
    ∷ row Handler.xslo "*SLO" 0x0F AddrMode.abs 3 6
    ∷ row Handler.xslo "*SLO" 0x1F AddrMode.abs_x 3 7
    ∷ row Handler.xslo "*SLO" 0x1B AddrMode.abs_y 3 7
    ∷ row Handler.xslo "*SLO" 0x03 AddrMode.ind_x 2 8
    ∷ row Handler.xslo "*SLO" 0x13 AddrMode.ind_y 2 8
    ∷ row Handler.xsre "*SRE" 0x47 AddrMode.zp 2 5
    ∷ row Handler.xsre "*SRE" 0x57 AddrMode.zp_x 2 6
    ∷ row Handler.xsre "*SRE" 0x4F AddrMode.abs 3 6
    ∷ row Handler.xsre "*SRE" 0x5F AddrMode.abs_x 3 7
    ∷ row Handler.xsre "*SRE" 0x5B AddrMode.abs_y 3 7
    ∷ row Handler.xsre "*SRE" 0x43 AddrMode.ind_x 2 8
    ∷ row Handler.xsre "*SRE" 0x53 AddrMode.ind_y 2 8
    ∷ row Handler.xisb "*ISB" 0xE7 AddrMode.zp 2 5
    ∷ row Handler.xisb "*ISB" 0xF7 AddrMode.zp_x 2 6
    ∷ row Handler.xisb "*ISB" 0xEF AddrMode.abs 3 6
    ∷ row Handler.xisb "*ISB" 0xFF AddrMode.abs_x 3 7
    ∷ row Handler.xisb "*ISB" 0xFB AddrMode.abs_y 3 7
    ∷ row Handler.xisb "*ISB" 0xE3 AddrMode.ind_x 2 8
    ∷ row Handler.xisb "*ISB" 0xF3 AddrMode.ind_y 2 8
    ∷ row Handler.xnop "???" 0x0B AddrMode.imm 2 2
    ∷ row Handler.xnop "???" 0x2B AddrMode.imm 2 2
    ∷ row Handler.xnop "???" 0x4B AddrMode.imm 2 2
    ∷ row Handler.xnop "???" 0x6B AddrMode.imm 2 2
    ∷ row Handler.xnop "???" 0x8B AddrMode.imm 2 2
    ∷ row Handler.xnop "???" 0xBB AddrMode.imm 2 2
    ∷ row Handler.xnop "???" 0xAB AddrMode.imm 2 2
    ∷ row Handler.xnop "???" 0xCB AddrMode.imm 2 2
    ∷ row Handler.xnop "???" 0x9F AddrMode.abs_x 3 5
    ∷ row Handler.xnop "???" 0x93 AddrMode.ind_y 2 6
    ∷ row Handler.xnop "???" 0x9E AddrMode.abs_y 3 5
    ∷ row Handler.xnop "???" 0x9C AddrMode.abs 3 5
    ∷ row Handler.xnop "???" 0x9B AddrMode.imm 2 2
    ∷ []

-- `init` writes each row at its opcode; `none` is Go's zero `Instruction`, whose size is 0.
abbrev pub fill : List (Option Instruction) → List Instruction → List (Option Instruction)
fill = foldl (λ slots instr. set slots instr.opcode (some instr))

unfoldable pub opcodes : List (Option Instruction)
unfolding official_table illegal_table
opcodes = fill (fill (replicate 256 none) official_table) illegal_table
