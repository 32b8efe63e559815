-- ===== src/Ines/Mapper7.antt =====
-- ines/mapper007.go, AxROM.
use dendy.Prelude.{
  ℕ, ◌+◌, ◌-◌, ◌*◌, ◌%◌, bit_and, shr, leb, ◌==◌, if◌then◌else◌, Bool, false, ◌&&◌, Option, none,
  some, ◌>>=◌, get_elem?, length,
}
use dendy.Binario.Writer.{Writer, write_uint8}
use dendy.Binario.Reader.{Reader, read_uint8_to}
use dendy.Ines.Rom
use dendy.Ines.Rom.{Rom, set_elem?, mirror_single0, mirror_single1}

pub record Mapper7 : Type 0 where
  pub rom : Rom
  pub prg_bank : ℕ  -- uint8
  pub chr_bank : ℕ  -- uint8

unfoldable pub new : Rom → Mapper7
new rom = record { rom = rom; prg_bank = 0; chr_bank = 0 }

unfoldable pub scanline_tick : Mapper7 → Mapper7
scanline_tick m = m

unfoldable pub pending_irq : Mapper7 → Bool × Mapper7
pending_irq m = (false, m)

unfoldable pub mirror_mode : Mapper7 → Option ℕ
mirror_mode m =
    if m.chr_bank == 0
    then some mirror_single0
    else if m.chr_bank == 1
    then some mirror_single1
    else none

unfoldable pub reset : Mapper7 → Mapper7
reset m = record m { prg_bank = 0; chr_bank = 0 }

unfoldable pub write_prg : Mapper7 → ℕ → ℕ → Option Mapper7
write_prg m addr value = some (
    if leb 0x8000 addr
    then record m { chr_bank = shr (bit_and value 0x10) 4; prg_bank = bit_and value 0x07 }
    else m)

unfoldable pub read_prg : Mapper7 → ℕ → Option ℕ
read_prg m addr =
    if leb 0x8000 addr
    then get_elem? m.rom.prg (m.prg_bank * 0x8000 + (addr - 0x8000) % 0x8000)
    else some 0

unfoldable pub write_chr : Mapper7 → ℕ → ℕ → Option Mapper7
write_chr m addr value =
    if m.rom.chr_ram && leb addr 0x1FFF
    then (if length m.rom.chr == 0 then none else (do
      chr ← set_elem? m.rom.chr (addr % length m.rom.chr) value
      some (record m { rom = record m.rom { chr = chr } })))
    else some m

unfoldable pub read_chr : Mapper7 → ℕ → Option ℕ
read_chr m addr =
    if leb addr 0x1FFF
    then (if length m.rom.chr == 0 then none else get_elem? m.rom.chr (addr % length m.rom.chr))
    else some 0

unfoldable pub save_state : Mapper7 → Writer → Writer
save_state m w = write_uint8 m.chr_bank (write_uint8 m.prg_bank (Rom.save_state m.rom w))

unfoldable pub load_state : Mapper7 → Reader → Mapper7 × Bool × Reader
load_state m r =
    let (rom, ok1, r1) = Rom.load_state m.rom r in
    let (prg_bank, ok2, r2) = read_uint8_to m.prg_bank r1 in
    let (chr_bank, ok3, r3) = read_uint8_to m.chr_bank r2 in
    (record { rom = rom; prg_bank = prg_bank; chr_bank = chr_bank }, ok1 && ok2 && ok3, r3)
