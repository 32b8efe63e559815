-- ===== src/Ines/Mapper0.antt =====
-- ines/mapper000.go, NROM.
use dendy.Prelude.{
  ℕ, ◌%◌, u16, leb, ◌==◌, if◌then◌else◌, Bool, false, Option, none, some, get_elem?, length,
}
use dendy.Binario.Writer.{Writer}
use dendy.Binario.Reader.{Reader}
use dendy.Ines.Rom
use dendy.Ines.Rom.{Rom}

pub record Mapper0 : Type 0 where
  pub rom : Rom

unfoldable pub new : Rom → Mapper0
new rom = record { rom = rom }

unfoldable pub reset : Mapper0 → Mapper0
reset m = m

unfoldable pub scanline_tick : Mapper0 → Mapper0
scanline_tick m = m

unfoldable pub pending_irq : Mapper0 → Bool × Mapper0
pending_irq m = (false, m)

unfoldable pub mirror_mode : Mapper0 → Option ℕ
mirror_mode m = some m.rom.mirror_mode

unfoldable pub read_prg : Mapper0 → ℕ → Option ℕ
read_prg m addr =
    if leb 0x8000 addr
    then (let size = u16 (length m.rom.prg) in
        if size == 0 then none else get_elem? m.rom.prg (addr % size))
    else some 0

unfoldable pub write_prg : Mapper0 → ℕ → ℕ → Option Mapper0
write_prg m addr value = some m

unfoldable pub read_chr : Mapper0 → ℕ → Option ℕ
read_chr m addr = if leb addr 0x1FFF then get_elem? m.rom.chr addr else some 0

unfoldable pub write_chr : Mapper0 → ℕ → ℕ → Option Mapper0
write_chr m addr value = some m

unfoldable pub save_state : Mapper0 → Writer → Writer
save_state m w = Rom.save_state m.rom w

unfoldable pub load_state : Mapper0 → Reader → Mapper0 × Bool × Reader
load_state m r = let (rom, ok, r1) = Rom.load_state m.rom r in (record { rom = rom }, ok, r1)
