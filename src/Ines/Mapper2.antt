-- ===== src/Ines/Mapper2.antt =====
-- ines/mapper002.go, UxROM. The banks are of type int; they are given by their 64-bit words.
use dendy.Prelude.{
  ℕ, ◌+◌, ◌-◌, ◌*◌, ◌%◌, ◌^◌, bit_and, u64, leb, ltb, ◌==◌, if◌then◌else◌, Bool, false, ◌&&◌,
  Option, none, some, ◌>>=◌, List, get_elem?, length,
}
use dendy.Binario.Writer.{Writer, write_uint64}
use dendy.Binario.Reader.{Reader, read_uint64_to}
use dendy.Ines.Rom
use dendy.Ines.Rom.{Rom, set_elem?}

pub record Mapper2 : Type 0 where
  pub rom : Rom
  pub prg_bank0 : ℕ  -- int, as a word
  pub prg_bank1 : ℕ  -- int, as a word

unfoldable pub new : Rom → Mapper2
new rom = record { rom = rom; prg_bank0 = 0; prg_bank1 = 0 }

unfoldable pub reset : Mapper2 → Mapper2
reset m = record m { prg_bank0 = 0; prg_bank1 = u64 (m.rom.prg_banks + 0xFFFFFFFFFFFFFFFF) }

unfoldable pub scanline_tick : Mapper2 → Mapper2
scanline_tick m = m

unfoldable pub pending_irq : Mapper2 → Bool × Mapper2
pending_irq m = (false, m)

unfoldable pub mirror_mode : Mapper2 → Option ℕ
mirror_mode m = some m.rom.mirror_mode

-- `xs[idx%len(xs)]` for an int: the remainder has the sign of `idx`, and no element a negative index.
unfoldable pub get_rem : List ℕ → ℕ → Option ℕ
get_rem xs idx =
    let size = length xs in
    if size == 0
    then none
    else if ltb idx (2 ^ 63)
    then get_elem? xs (idx % size)
    else if (2 ^ 64 - idx) % size == 0
    then get_elem? xs 0
    else none

unfoldable pub read_prg : Mapper2 → ℕ → Option ℕ
read_prg m addr =
    if leb 0x8000 addr && leb addr 0xBFFF
    then get_rem m.rom.prg (u64 (m.prg_bank0 * 0x4000 + (addr - 0x8000)))
    else if leb 0xC000 addr
    then get_rem m.rom.prg (u64 (m.prg_bank1 * 0x4000 + (addr - 0xC000)))
    else some 0

unfoldable pub write_prg : Mapper2 → ℕ → ℕ → Option Mapper2
write_prg m addr value = some (record m { prg_bank0 = bit_and value 0x0F })

unfoldable pub read_chr : Mapper2 → ℕ → Option ℕ
read_chr m addr = if leb addr 0x1FFF then get_elem? m.rom.chr addr else some 0

unfoldable pub write_chr : Mapper2 → ℕ → ℕ → Option Mapper2
write_chr m addr value =
    if m.rom.chr_ram
    then (do
      chr ← set_elem? m.rom.chr addr value
      some (record m { rom = record m.rom { chr = chr } }))
    else some m

unfoldable pub save_state : Mapper2 → Writer → Writer
save_state m w = write_uint64 m.prg_bank1 (write_uint64 m.prg_bank0 (Rom.save_state m.rom w))

unfoldable pub load_state : Mapper2 → Reader → Mapper2 × Bool × Reader
load_state m r =
    let (rom, ok1, r1) = Rom.load_state m.rom r in
    let (prg_bank0, ok2, r2) = read_uint64_to 0 r1 in
    let (prg_bank1, ok3, r3) = read_uint64_to 0 r2 in
    (record { rom = rom; prg_bank0 = prg_bank0; prg_bank1 = prg_bank1 }, ok1 && ok2 && ok3, r3)
