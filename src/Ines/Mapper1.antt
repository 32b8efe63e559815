-- ===== src/Ines/Mapper1.antt =====
-- ines/mapper001.go, MMC1.
use dendy.Prelude.{
  ℕ, ◌+◌, ◌-◌, ◌*◌, ◌%◌, bit_and, bit_or, shl, shr, u8, u64, leb, ◌==◌, if◌then◌else◌, Bool, false,
  ◌&&◌, Option, none, some, ◌>>=◌, List, get_elem?, replicate,
}
use dendy.Binario.Writer.{Writer, write_uint8, write_byte_slice}
use dendy.Binario.Reader.{Reader, read_uint8_to, read_byte_slice_to}
use dendy.Ines.Rom
use dendy.Ines.Rom.{
  Rom, set_elem?, mirror_horizontal, mirror_vertical, mirror_single0, mirror_single1,
}

pub record Mapper1 : Type 0 where
  pub rom : Rom
  pub sram : List ℕ  -- [0x2000]byte
  pub control : ℕ  -- byte
  pub prg_bank : ℕ  -- byte
  pub chr_bank0 : ℕ  -- byte
  pub chr_bank1 : ℕ  -- byte
  pub shift_register : ℕ  -- byte
  pub write_count : ℕ  -- byte

unfoldable pub new : Rom → Mapper1
new rom = record {
  rom = rom;
  sram = replicate 0x2000 0;
  control = 0;
  prg_bank = 0;
  chr_bank0 = 0;
  chr_bank1 = 0;
  shift_register = 0;
  write_count = 0;
}

unfoldable pub reset : Mapper1 → Mapper1
reset m = record m {
  control = 0x0C;
  prg_bank = 0;
  chr_bank0 = 0;
  chr_bank1 = 0;
  shift_register = 0x10;
  write_count = 0;
}

unfoldable pub scanline_tick : Mapper1 → Mapper1
scanline_tick m = m

unfoldable pub pending_irq : Mapper1 → Bool × Mapper1
pending_irq m = (false, m)

unfoldable pub mirror_mode : Mapper1 → Option ℕ
mirror_mode m =
    let mode = bit_and m.control 0x03 in
    if mode == 0
    then some mirror_single0
    else if mode == 1
    then some mirror_single1
    else if mode == 2
    then some mirror_vertical
    else if mode == 3
    then some mirror_horizontal
    else none

unfoldable pub prg_mode : Mapper1 → ℕ
prg_mode m = bit_and (shr m.control 2) 0x03

unfoldable pub chr_mode : Mapper1 → ℕ
chr_mode m = bit_and (shr m.control 4) 0x01

unfoldable pub write_register : Mapper1 → ℕ → ℕ → Mapper1
write_register m addr value =
    if leb addr 0x9FFF
    then record m { control = value }
    else if leb addr 0xBFFF
    then record m { chr_bank0 = bit_and value 0x1F }
    else if leb addr 0xDFFF
    then record m { chr_bank1 = bit_and value 0x1F }
    else record m { prg_bank = bit_and value 0x0F }

-- A write without the reset bit.
unfoldable pub shift_in : Mapper1 → ℕ → ℕ → Mapper1
shift_in m addr value =
    let shifted = bit_or (shr m.shift_register 1) (u8 (shl (bit_and value 1) 4)) in
    let count = u8 (m.write_count + 1) in
    let counted = record m { shift_register = shifted; write_count = count } in
    if count == 5
    then record (write_register counted addr shifted) { shift_register = 0x10; write_count = 0 }
    else counted

unfoldable pub load_register : Mapper1 → ℕ → ℕ → Mapper1
load_register m addr value =
    if bit_and value 0x80 == 0
    then shift_in m addr value
    else record m { shift_register = 0x10; control = bit_or m.control 0x0C; write_count = 0 }

unfoldable pub prg_bank_index : Mapper1 → Option (ℕ × ℕ)
prg_bank_index m =
    let mode = prg_mode m in
    if leb mode 1
    then some (bit_and m.prg_bank 0xFE, bit_or m.prg_bank 0x01)
    else if mode == 2
    then some (0, m.prg_bank)
    else if mode == 3
    then some (m.prg_bank, u64 (m.rom.prg_banks + 0xFFFFFFFFFFFFFFFF))
    else none

unfoldable pub prg_offset : ℕ → ℕ
prg_offset idx = u64 (idx * 0x4000)

unfoldable pub read_prg : Mapper1 → ℕ → Option ℕ
read_prg m addr = do
  (bank0, bank1) ← prg_bank_index m
  if leb 0x6000 addr && leb addr 0x7FFF
      then get_elem? m.sram (addr - 0x6000)
      else if leb 0x8000 addr && leb addr 0xBFFF
      then get_elem? m.rom.prg (u64 (prg_offset bank0 + (addr - 0x8000) % 0x4000))
      else if leb 0xC000 addr
      then get_elem? m.rom.prg (u64 (prg_offset bank1 + (addr - 0x8000) % 0x4000))
      else some 0

unfoldable pub write_prg : Mapper1 → ℕ → ℕ → Option Mapper1
write_prg m addr value =
    if leb 0x6000 addr && leb addr 0x7FFF
    then (do sram ← set_elem? m.sram (addr - 0x6000) value; some (record m { sram = sram }))
    else if leb 0x8000 addr
    then some (load_register m addr value)
    else some m

unfoldable pub chr_bank_index : Mapper1 → Option (ℕ × ℕ)
chr_bank_index m =
    let mode = chr_mode m in
    if mode == 0
    then some (bit_and m.chr_bank0 0xFE, bit_or m.chr_bank0 0x01)
    else if mode == 1
    then some (m.chr_bank0, m.chr_bank1)
    else none

unfoldable pub chr_offset : ℕ → ℕ
chr_offset idx = u64 (idx * 0x1000)

unfoldable pub read_chr : Mapper1 → ℕ → Option ℕ
read_chr m addr = do
  (bank0, bank1) ← chr_bank_index m
  let rel_addr = addr % 0x1000
  if leb addr 0x0FFF
      then get_elem? m.rom.chr (u64 (chr_offset bank0 + rel_addr))
      else if leb addr 0x1FFF
      then get_elem? m.rom.chr (u64 (chr_offset bank1 + rel_addr))
      else some 0

abbrev set_chr : Mapper1 → ℕ → ℕ → Option Mapper1
set_chr m idx value = do
  chr ← set_elem? m.rom.chr idx value
  some (record m { rom = record m.rom { chr = chr } })

unfoldable pub write_chr : Mapper1 → ℕ → ℕ → Option Mapper1
write_chr m addr value =
    if m.rom.chr_ram
    then (do
      (bank0, bank1) ← chr_bank_index m
      let rel_addr = addr % 0x1000
      if leb addr 0x0FFF
          then set_chr m (u64 (chr_offset bank0 + rel_addr)) value
          else if leb addr 0x1FFF
          then set_chr m (u64 (chr_offset bank1 + rel_addr)) value
          else some m)
    else some m

unfoldable pub save_state : Mapper1 → Writer → Writer
save_state m w =
    let w1 = write_byte_slice m.sram (Rom.save_state m.rom w) in
    let w2 = write_uint8 m.chr_bank0 (write_uint8 m.control w1) in
    let w3 = write_uint8 m.prg_bank (write_uint8 m.chr_bank1 w2) in
    write_uint8 m.write_count (write_uint8 m.shift_register w3)

unfoldable pub load_state : Mapper1 → Reader → Mapper1 × Bool × Reader
load_state m r =
    let (rom, ok1, r1) = Rom.load_state m.rom r in
    let (sram, ok2, r2) = read_byte_slice_to m.sram r1 in
    let (control, ok3, r3) = read_uint8_to m.control r2 in
    let (chr_bank0, ok4, r4) = read_uint8_to m.chr_bank0 r3 in
    let (chr_bank1, ok5, r5) = read_uint8_to m.chr_bank1 r4 in
    let (prg_bank, ok6, r6) = read_uint8_to m.prg_bank r5 in
    let (shift_register, ok7, r7) = read_uint8_to m.shift_register r6 in
    let (write_count, ok8, r8) = read_uint8_to m.write_count r7 in
    (
      record {
        rom = rom;
        sram = sram;
        control = control;
        prg_bank = prg_bank;
        chr_bank0 = chr_bank0;
        chr_bank1 = chr_bank1;
        shift_register = shift_register;
        write_count = write_count;
      },
      ok1 && ok2 && ok3 && ok4 && ok5 && ok6 && ok7 && ok8,
      r8,
    )
