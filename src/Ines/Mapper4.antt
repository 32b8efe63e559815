-- ===== src/Ines/Mapper4.antt =====
-- ines/mapper004.go, MMC3. The registers and banks are of type int and never negative.
use dendy.Prelude.{
  ℕ, suc, ◌+◌, ◌-◌, ◌*◌, ◌/◌, ◌%◌, bit_and, bit_or, shr, u32, leb, ltb, ◌==◌, if◌then◌else◌, Bool,
  true, false, not, ◌&&◌, Option, none, some, ◌>>=◌, List, [], ◌∷◌, get_elem?, length, replicate, ℤ,
  pos, negsuc,
}
use dendy.Binario.Writer.{Writer, write_uint8, write_uint32, write_bool, write_byte_slice}
use dendy.Binario.Reader.{Reader, read_uint8_to, read_uint32, read_bool_to, read_byte_slice_to}
use dendy.Ines.Rom
use dendy.Ines.Rom.{Rom, set_elem?, mirror_horizontal, mirror_vertical}

pub record Mapper4 : Type 0 where
  pub rom : Rom
  pub sram : List ℕ  -- [0x2000]byte
  pub mirror : ℕ  -- uint8
  pub chr_bank : List ℕ  -- [8]int
  pub prg_bank : List ℕ  -- [4]int
  pub registers : List ℕ  -- [8]int
  pub target_reg : ℕ  -- byte
  pub chr_mode : ℕ  -- byte
  pub prg_mode : ℕ  -- byte
  pub irq_enable : Bool
  pub irq_counter : ℕ  -- byte
  pub irq_reload : ℕ  -- byte
  pub irq_pending : Bool

unfoldable pub new : Rom → Mapper4
new rom = record {
  rom = rom;
  sram = replicate 0x2000 0;
  mirror = 0;
  chr_bank = replicate 8 0;
  prg_bank = replicate 4 0;
  registers = replicate 8 0;
  target_reg = 0;
  chr_mode = 0;
  prg_mode = 0;
  irq_enable = false;
  irq_counter = 0;
  irq_reload = 0;
  irq_pending = false;
}

-- `idx % count * size`; `none` is the division by zero.
abbrev pub bank_start : ℕ → ℕ → ℕ → Option ℕ
bank_start idx count size = if count == 0 then none else some (idx % count * size)

-- A negative index counts from the end. It stays negative only if there are no PRG banks, and then
-- the division panics.
unfoldable pub prg_offset : Rom → ℤ → Option ℕ
prg_offset rom (pos idx) = bank_start idx (length rom.prg / 0x2000) 0x2000
prg_offset rom (negsuc n) =
    if ltb (rom.prg_banks * 2) (suc n)
    then none
    else bank_start (rom.prg_banks * 2 - suc n) (length rom.prg / 0x2000) 0x2000

unfoldable pub chr_offset : Rom → ℕ → Option ℕ
chr_offset rom idx = bank_start idx (length rom.chr / 0x0400) 0x0400

abbrev two_banks : Rom → ℕ → Option (ℕ × ℕ)
two_banks rom reg = do
  even ← chr_offset rom (bit_and reg 0xFE)
  odd ← chr_offset rom (bit_or reg 0x01)
  some (even, odd)

unfoldable pub prg_banks : Mapper4 → Option (List ℕ)
prg_banks m = do
  reg6 ← get_elem? m.registers 6
  reg7 ← get_elem? m.registers 7
  bank6 ← prg_offset m.rom (pos reg6)
  bank7 ← prg_offset m.rom (pos reg7)
  second_last ← prg_offset m.rom (negsuc 1)
  last ← prg_offset m.rom (negsuc 0)
  if m.prg_mode == 0
      then some (bank6 ∷ bank7 ∷ second_last ∷ last ∷ [])
      else if m.prg_mode == 1
      then some (second_last ∷ bank7 ∷ bank6 ∷ last ∷ [])
      else none

unfoldable pub chr_banks : Mapper4 → Option (List ℕ)
chr_banks m = do
  reg0 ← get_elem? m.registers 0
  reg1 ← get_elem? m.registers 1
  reg2 ← get_elem? m.registers 2
  reg3 ← get_elem? m.registers 3
  reg4 ← get_elem? m.registers 4
  reg5 ← get_elem? m.registers 5
  (even0, odd0) ← two_banks m.rom reg0
  (even1, odd1) ← two_banks m.rom reg1
  bank2 ← chr_offset m.rom reg2
  bank3 ← chr_offset m.rom reg3
  bank4 ← chr_offset m.rom reg4
  bank5 ← chr_offset m.rom reg5
  if m.chr_mode == 0
      then some (even0 ∷ odd0 ∷ even1 ∷ odd1 ∷ bank2 ∷ bank3 ∷ bank4 ∷ bank5 ∷ [])
      else if m.chr_mode == 1
      then some (bank2 ∷ bank3 ∷ bank4 ∷ bank5 ∷ even0 ∷ odd0 ∷ even1 ∷ odd1 ∷ [])
      else none

unfoldable pub update_banks : Mapper4 → Option Mapper4
update_banks m = do
  prg_bank ← prg_banks m
  chr_bank ← chr_banks m
  some (record m { prg_bank = prg_bank; chr_bank = chr_bank })

unfoldable pub reset : Mapper4 → Option Mapper4
reset m = update_banks (record m {
  mirror = mirror_horizontal;
  registers = replicate 8 0;
  chr_bank = replicate 8 0;
  prg_bank = replicate 4 0;
  target_reg = 0;
  chr_mode = 0;
  prg_mode = 0;
  irq_pending = false;
  irq_enable = false;
  irq_counter = 0;
  irq_reload = 0;
})

unfoldable pub write_mirror : Mapper4 → ℕ → Mapper4
write_mirror m value = record m {
  mirror = if bit_and value 1 == 0 then mirror_vertical else mirror_horizontal;
}

unfoldable pub write_bank_select : Mapper4 → ℕ → Option Mapper4
write_bank_select m value = update_banks (record m {
  prg_mode = bit_and (shr value 6) 1;
  chr_mode = bit_and (shr value 7) 1;
  target_reg = bit_and value 7;
})

unfoldable pub write_bank_data : Mapper4 → ℕ → Option Mapper4
write_bank_data m value = do
  registers ← set_elem? m.registers m.target_reg value
  update_banks (record m { registers = registers })

unfoldable pub write_register : Mapper4 → ℕ → ℕ → Option Mapper4
write_register m addr value =
    let even = addr % 2 == 0 in
    if leb 0x8000 addr && leb addr 0x9FFF
    then (if even then write_bank_select m value else write_bank_data m value)
    else if leb 0xA000 addr && leb addr 0xBFFF
    then some (if even then write_mirror m value else m)
    else if leb 0xC000 addr && leb addr 0xDFFF
    then some (if even then record m { irq_reload = value } else record m { irq_counter = 0 })
    else if leb 0xE000 addr
    then some (record m { irq_enable = not even })
    else some m

unfoldable pub scanline_tick : Mapper4 → Mapper4
scanline_tick m =
    if m.irq_counter == 0
    then record m { irq_counter = m.irq_reload }
    else let ticked = record m { irq_counter = m.irq_counter - 1 } in
      if ticked.irq_counter == 0 then record ticked { irq_pending = m.irq_enable } else ticked

unfoldable pub pending_irq : Mapper4 → Bool × Mapper4
pending_irq m = (m.irq_pending, record m { irq_pending = false })

unfoldable pub mirror_mode : Mapper4 → Option ℕ
mirror_mode m = some m.mirror

unfoldable pub read_prg : Mapper4 → ℕ → Option ℕ
read_prg m addr =
    if leb 0x6000 addr && leb addr 0x7FFF
    then get_elem? m.sram (addr - 0x6000)
    else if leb 0x8000 addr
    then (do
      start ← get_elem? m.prg_bank ((addr - 0x8000) / 0x2000)
      get_elem? m.rom.prg (start + (addr - 0x8000) % 0x2000))
    else some 0

unfoldable pub write_prg : Mapper4 → ℕ → ℕ → Option Mapper4
write_prg m addr value =
    if leb 0x6000 addr && leb addr 0x7FFF
    then (do sram ← set_elem? m.sram (addr - 0x6000) value; some (record m { sram = sram }))
    else if leb 0x8000 addr
    then write_register m addr value
    else some m

unfoldable pub read_chr : Mapper4 → ℕ → Option ℕ
read_chr m addr =
    if leb addr 0x1FFF
    then (do
      start ← get_elem? m.chr_bank (addr / 0x0400)
      get_elem? m.rom.chr (start + addr % 0x0400))
    else some 0

unfoldable pub write_chr : Mapper4 → ℕ → ℕ → Option Mapper4
write_chr m addr value =
    if m.rom.chr_ram && leb addr 0x1FFF
    then (do
      start ← get_elem? m.chr_bank (addr / 0x0400)
      chr ← set_elem? m.rom.chr (start + addr % 0x0400) value
      some (record m { rom = record m.rom { chr = chr } }))
    else some m

-- A loop of the save state over an array.
unfoldable pub write_words : List ℕ → Writer → Writer
write_words [] w = w
write_words (v ∷ vs) w = write_words vs (write_uint32 (u32 v) w)

unfoldable pub save_state : Mapper4 → Writer → Writer
save_state m w =
    let w1 = write_byte_slice m.sram (Rom.save_state m.rom w) in
    let w2 = write_uint8 m.prg_mode (write_uint8 m.mirror w1) in
    let w3 = write_uint8 m.target_reg (write_uint8 m.chr_mode w2) in
    let w4 = write_uint8 m.irq_counter (write_bool m.irq_enable w3) in
    let w5 = write_words m.registers (write_uint8 m.irq_reload w4) in
    write_words m.prg_bank (write_words m.chr_bank w5)

-- A loop of the load: it ends at a word that is not there, and the elements from there on stay.
abbrev pub next_words : List ℕ → Option ℕ × Reader → List ℕ × Bool × Reader → List ℕ × Bool × Reader
next_words vs (none, r) more = (vs, false, r)
next_words vs (some u, r) (us, ok, rest) = (u ∷ us, ok, rest)

unfoldable pub read_words : List ℕ → Reader → List ℕ × Bool × Reader
read_words [] r = ([], true, r)
read_words (v ∷ vs) r = next_words (v ∷ vs) (read_uint32 r) (read_words vs (read_uint32 r).1)

-- A loop that is run only if the ones before it ended well.
abbrev pub read_words_if : Bool → List ℕ → Reader → List ℕ × Bool × Reader
read_words_if true vs r = read_words vs r
read_words_if false vs r = (vs, false, r)

-- The reads that are made whatever fails.
unfoldable pub load_fields : Mapper4 → Reader → Mapper4 × Bool × Reader
load_fields m r =
    let (rom, ok1, r1) = Rom.load_state m.rom r in
    let (sram, ok2, r2) = read_byte_slice_to m.sram r1 in
    let (mirror, ok3, r3) = read_uint8_to m.mirror r2 in
    let (prg_mode, ok4, r4) = read_uint8_to m.prg_mode r3 in
    let (chr_mode, ok5, r5) = read_uint8_to m.chr_mode r4 in
    let (target_reg, ok6, r6) = read_uint8_to m.target_reg r5 in
    let (irq_enable, ok7, r7) = read_bool_to m.irq_enable r6 in
    let (irq_counter, ok8, r8) = read_uint8_to m.irq_counter r7 in
    let (irq_reload, ok9, r9) = read_uint8_to m.irq_reload r8 in
    (
      record m {
        rom = rom;
        sram = sram;
        mirror = mirror;
        prg_mode = prg_mode;
        chr_mode = chr_mode;
        target_reg = target_reg;
        irq_enable = irq_enable;
        irq_counter = irq_counter;
        irq_reload = irq_reload;
      },
      ok1 && ok2 && ok3 && ok4 && ok5 && ok6 && ok7 && ok8 && ok9,
      r9,
    )

unfoldable pub load_arrays : Mapper4 → Reader → Mapper4 × Bool × Reader
load_arrays m r =
    let (registers, ok1, r1) = read_words m.registers r in
    let (chr_bank, ok2, r2) = read_words_if ok1 m.chr_bank r1 in
    let (prg_bank, ok3, r3) = read_words_if ok2 m.prg_bank r2 in
    (record m { registers = registers; chr_bank = chr_bank; prg_bank = prg_bank }, ok3, r3)

-- An error of the first reads does not keep the loops from running; it is returned after them.
unfoldable pub load_state : Mapper4 → Reader → Mapper4 × Bool × Reader
load_state m r =
    let (fields, ok1, r1) = load_fields m r in
    let (loaded, ok2, r2) = load_arrays fields r1 in (loaded, ok1 && ok2, r2)
