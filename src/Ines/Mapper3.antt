-- ===== src/Ines/Mapper3.antt =====
-- ines/mapper003.go, CNROM.
use dendy.Prelude.{
  ℕ, ◌+◌, ◌-◌, ◌*◌, ◌%◌, bit_and, u64, leb, ◌==◌, if◌then◌else◌, Bool, false, ◌&&◌, Option, none,
  some, ◌>>=◌, List, get_elem?, length,
}
use dendy.Binario.Writer.{Writer, write_uint64}
use dendy.Binario.Reader.{Reader, read_uint64_to}
use dendy.Ines.Rom
use dendy.Ines.Rom.{Rom, set_elem?}

pub record Mapper3 : Type 0 where
  pub rom : Rom
  pub chr_bank0 : ℕ  -- uint
  pub prg_bank0 : ℕ  -- uint
  pub prg_bank1 : ℕ  -- uint

unfoldable pub new : Rom → Mapper3
new rom = record { rom = rom; chr_bank0 = 0; prg_bank0 = 0; prg_bank1 = 0 }

unfoldable pub reset : Mapper3 → Mapper3
reset m = record m {
  chr_bank0 = 0;
  prg_bank0 = 0;
  prg_bank1 = u64 (m.rom.prg_banks + 0xFFFFFFFFFFFFFFFF);
}

unfoldable pub scanline_tick : Mapper3 → Mapper3
scanline_tick m = m

unfoldable pub pending_irq : Mapper3 → Bool × Mapper3
pending_irq m = (false, m)

unfoldable pub mirror_mode : Mapper3 → Option ℕ
mirror_mode m = some m.rom.mirror_mode

-- `xs[idx%uint(len(xs))]`
abbrev get_wrapped : List ℕ → ℕ → Option ℕ
get_wrapped xs idx = if length xs == 0 then none else get_elem? xs (idx % length xs)

unfoldable pub read_prg : Mapper3 → ℕ → Option ℕ
read_prg m addr =
    if leb 0x8000 addr && leb addr 0xBFFF
    then get_wrapped m.rom.prg (u64 (m.prg_bank0 * 0x4000 + (addr - 0x8000)))
    else if leb 0xC000 addr
    then get_wrapped m.rom.prg (u64 (m.prg_bank1 * 0x4000 + (addr - 0xC000)))
    else some 0

unfoldable pub write_prg : Mapper3 → ℕ → ℕ → Option Mapper3
write_prg m addr value = some (record m { chr_bank0 = bit_and value 0x03 })

unfoldable pub read_chr : Mapper3 → ℕ → Option ℕ
read_chr m addr =
    if leb addr 0x1FFF
    then get_elem? m.rom.chr (u64 (addr + u64 (m.chr_bank0 * 0x2000)))
    else some 0

unfoldable pub write_chr : Mapper3 → ℕ → ℕ → Option Mapper3
write_chr m addr value =
    if m.rom.chr_ram
    then (do
      chr ← set_elem? m.rom.chr addr value
      some (record m { rom = record m.rom { chr = chr } }))
    else some m

unfoldable pub save_state : Mapper3 → Writer → Writer
save_state m w =
    let chr_saved = write_uint64 m.chr_bank0 (Rom.save_state m.rom w) in
    write_uint64 m.prg_bank1 (write_uint64 m.prg_bank0 chr_saved)

unfoldable pub load_state : Mapper3 → Reader → Mapper3 × Bool × Reader
load_state m r =
    let (rom, ok1, r1) = Rom.load_state m.rom r in
    let (chr_bank0, ok2, r2) = read_uint64_to 0 r1 in
    let (prg_bank0, ok3, r3) = read_uint64_to 0 r2 in
    let (prg_bank1, ok4, r4) = read_uint64_to 0 r3 in
    (
      record { rom = rom; chr_bank0 = chr_bank0; prg_bank0 = prg_bank0; prg_bank1 = prg_bank1 },
      ok1 && ok2 && ok3 && ok4,
      r4,
    )
