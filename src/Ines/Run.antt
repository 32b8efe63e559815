-- ===== src/Ines/Run.antt =====
-- Whole runs of accesses to an MMC3 cartridge, from the file of its ROM.
use dendy.Prelude.{
  ℕ, ◌*◌, ◌<◌, ◌≡◌, refl, ◌∙◌, arith, inl, inr, false, Bool-cases, some, List, [], ◌∷◌, length,
  length-replicate,
}
use dendy.Ines.Rom.{Rom, new_from_buffer}
use dendy.Ines.Loaded.{IsLoaded, new_from_buffer-IsLoaded}
use dendy.Ines.Mapper4
use dendy.Ines.Mapper4.{Mapper4}
use dendy.Ines.Cartridge.{Cartridge, mapper4, new_cartridge}
use dendy.Ines.Cartridge
use dendy.Ines.Banks.{IsBanked, Gives, update_banks-Gives}
use dendy.Ines.Access.{read_prg-returns, read_chr-returns}
use dendy.Ines.Play.{other_fields, scanline_tick-IsBanked, write_prg-Gives, write_chr-Gives}
use dendy.Ines.Dispatch.{Call, Reply, call_dynamic, run, replies_dynamic}

-- The calls of a playing console, all but those of save states. The processor's addresses have 16
-- bits.
pub data IsAccess : Call → Type 0 where
  resets : IsAccess Call.reset
  ticks : IsAccess Call.scanline_tick
  takes_irq : IsAccess Call.pending_irq
  asks_mirror : IsAccess Call.mirror_mode
  reads_prg : {addr : ℕ} → addr < 0x10000 → IsAccess (Call.read_prg addr)
  writes_prg : {addr value : ℕ} → IsAccess (Call.write_prg addr value)
  reads_chr : {addr : ℕ} → IsAccess (Call.read_chr addr)
  writes_chr : {addr value : ℕ} → IsAccess (Call.write_chr addr value)

pub data AllAccess : List Call → Type 0 where
  nil : AllAccess []
  cons :
      {call : Call} {calls : List Call} → IsAccess call → AllAccess calls → AllAccess (call ∷ calls)

reset_whole :
    (m : Mapper4)
    → 0 < m.rom.prg_banks
    → length m.rom.prg ≡ m.rom.prg_banks * 0x4000
    → (n : ℕ) → 0 < n
    → length m.rom.chr ≡ n * 0x2000
    → length m.sram ≡ 0x2000
    → Gives IsBanked (Mapper4.reset m)
unfolding Mapper4.reset
reset_whole m some_prg prg n some_chr chr sram = update_banks-Gives _ (record {
  prg_some = some_prg;
  prg_size = prg;
  chr_count = n;
  chr_some = some_chr;
  chr_size = chr;
  sram = sram;
  registers = refl;
  target = omega arith;
  prg_mode = omega arith;
  chr_mode = omega arith;
})

-- A call that does not panic on a cartridge whose banks are inside the ROM, and keeps them there.
Answers : Call → Mapper4 → Type 0
Answers call m =
    (reply : Reply) × (n : Mapper4) × IsBanked n
    × (call_dynamic call (mapper4 m) ≡ some (reply, mapper4 n))

access_Answers : (call : Call) → IsAccess call → (m : Mapper4) → IsBanked m → Answers call m
unfolding Answers call_dynamic Cartridge.reset Cartridge.scanline_tick Cartridge.pending_irq
    Mapper4.pending_irq Cartridge.mirror_mode Mapper4.mirror_mode Cartridge.read_prg
    Cartridge.write_prg Cartridge.read_chr Cartridge.write_chr
access_Answers call resets m b =
    let w = b.whole in
    let g = reset_whole m w.prg_some w.prg_size w.chr_count w.chr_some w.chr_size w.sram in
    (Reply.nothing, g.value, g.holds, rw g.gives refl)
access_Answers call ticks m b =
    (Reply.nothing, Mapper4.scanline_tick m, scanline_tick-IsBanked m b, refl)
access_Answers call takes_irq m b = (
  Reply.flag m.irq_pending,
  _,
  other_fields m b m.mirror m.irq_enable false m.irq_counter m.irq_reload,
  refl,
)
access_Answers call asks_mirror m b = (Reply.byte m.mirror, m, b, refl)
access_Answers call (reads_prg {addr = addr} h) m b =
    let (v, e) = read_prg-returns m b addr h in (Reply.byte v, m, b, rw e refl)
access_Answers call (writes_prg {addr = addr} {value = value}) m b =
    let g = write_prg-Gives m b addr value in (Reply.nothing, g.value, g.holds, rw g.gives refl)
access_Answers call (reads_chr {addr = addr}) m b =
    let (v, e) = read_chr-returns m b addr in (Reply.byte v, m, b, rw e refl)
access_Answers call (writes_chr {addr = addr} {value = value}) m b =
    let g = write_chr-Gives m b addr value in (Reply.nothing, g.value, g.holds, rw g.gives refl)

run_returns :
    (calls : List Call) (m : Mapper4)
    → AllAccess calls
    → IsBanked m
    → (r : List Reply × Cartridge) × (run call_dynamic calls (mapper4 m) ≡ some r)
unfolding run Answers
run_returns [] m all b = (([], mapper4 m), refl)
run_returns (call ∷ calls) m (cons a all) b =
    let (reply, next, held, e) = access_Answers call a m b in
    let ((replies, last), f) = run_returns calls next all held in
    ((reply ∷ replies, last), rw (e, f) refl)

chr_count : (rom : Rom) → IsLoaded rom → (n : ℕ) × (0 < n) × (length rom.chr ≡ n * 0x2000)
chr_count rom h = elim (Bool-cases rom.chr_ram) [
  | inl ram ↦ (1, omega arith, h.chr_size ram ∙ omega arith)
  | inr flash ↦ (rom.chr_banks, h.chr_banked flash, h.chr_rom flash)
]

new_cartridge_4 :
    (rom : Rom) → rom.mapper_id ≡ 4 → new_cartridge rom ≡ some (mapper4 (Mapper4.new rom))
unfolding new_cartridge
new_cartridge_4 rom id = ground arith

-- A ROM of mapper 4 that was read from a file and has PRG gives a cartridge on which no sequence of
-- calls that begins with a reset panics, save states aside, if the reads of PRG are at 16-bit
-- addresses.
pub replies-Returns :
    (crc : List ℕ → ℕ) (file : List ℕ) (rom : Rom) (calls : List Call)
    → new_from_buffer crc file ≡ some rom
    → rom.mapper_id ≡ 4
    → 0 < rom.prg_banks
    → AllAccess calls
    → (replies : List Reply) × (replies_dynamic rom (Call.reset ∷ calls) ≡ some replies)
unfolding Mapper4.new replies_dynamic run call_dynamic Cartridge.reset
replies-Returns crc file rom calls read id prg all =
    let h = new_from_buffer-IsLoaded crc file rom read in
    let (n, some_chr, chr) = chr_count rom h in
    let size : length (Mapper4.new rom).sram ≡ 0x2000 = length-replicate {A = ℕ} 0x2000 0 in
    let first = reset_whole (Mapper4.new rom) prg h.prg_size n some_chr chr size in
    let ((replies, last), e) = run_returns calls first.value all first.holds in
    (Reply.nothing ∷ replies, rw (new_cartridge_4 rom id, first.gives, e) refl)
