-- ===== src/Ines/SaveState.antt =====
-- Cartridges in a save state: ines/rom.go and ines/mapper004.go.
use dendy.Prelude.{
  ℕ, ◌<◌, ◌^◌, ◌≡◌, refl, ap, ◌∙◌, arith, ◌==◌, inl, inr, ◌&&◌, if◌then◌else◌, Bool, true, false,
  Bool-cases, some, List, [], ◌∷◌, ◌++◌, length,
}
use mathlib.Core.List.{append_assoc}
use dendy.Binario.Writer.{write_uint32, put_uint}
use dendy.Binario.Reader.{Reader, read_byte_slice_to}
use dendy.Binario.RoundTrip.{
  Reads, read_uint8_to-byte, read_bool_to-byte, read_byte_slice_to-put, write_byte_slice_lem,
  read_uint32-put,
}
use dendy.Ines.SaveWords.{
  words_bytes, AllWords, words_written, byte_written, bool_written, slice_written, words_loaded,
}
use dendy.Ines.Rom
use dendy.Ines.Rom.{Rom, check_hash, with_chr}
use dendy.Ines.Mapper4
use dendy.Ines.Mapper4.{Mapper4, write_words, read_words, load_fields, load_arrays}

-- The bytes of the ROM.
abbrev rom_bytes : Rom → List ℕ
rom_bytes r = put_uint 4 r.crc32 ++ (if r.chr_ram then put_uint 4 (length r.chr) ++ r.chr else [])

regroup : (w a b c rest : List ℕ) → (((w ++ a) ++ b) ++ c) ++ rest ≡ w ++ ((a ++ (b ++ c)) ++ rest)
regroup w a b c rest =
    ap (λ t. t ++ rest) (append_assoc (w ++ a) b c ∙ append_assoc w a (b ++ c))
    ∙ append_assoc w (a ++ (b ++ c)) rest

rom_written :
    (r : Rom) (w rest : List ℕ)
    → length r.chr < 2 ^ 32
    → Rom.save_state r w ++ rest ≡ w ++ (rom_bytes r ++ rest)
unfolding Rom.save_state write_uint32
rom_written r w rest h = elim (Bool-cases r.chr_ram) [
  | inl e ↦
      rw (e, write_byte_slice_lem r.chr (w ++ put_uint 4 r.crc32) h)
        (regroup w (put_uint 4 r.crc32) (put_uint 4 (length r.chr)) r.chr rest)
  | inr e ↦ rw e (append_assoc w (put_uint 4 r.crc32) rest)
]

hash_kept :
    (r : Rom) (reader : Reader)
    → check_hash r (some r.crc32, reader)
      ≡ (if r.chr_ram then with_chr r (read_byte_slice_to r.chr reader) else (r, true, reader))
hash_kept r reader = let same : (r.crc32 == r.crc32) ≡ true = ground arith in rw same refl

module _ (rest buf : List ℕ) (hb : length buf ≡ 8) where
  -- The contents that the CHR memory had before do not matter where it is RAM.
  rom_loaded :
      (r : Rom) (chr : List ℕ)
      → r.crc32 < 2 ^ 32
      → length r.chr < 2 ^ 32
      → length chr ≡ length r.chr
      → (r.chr_ram ≡ false → chr ≡ r.chr)
      → Reads
          (Rom.load_state
            (record r { chr = chr })
            (record { unread = rom_bytes r ++ rest; buf = buf }))
          r
          rest
  unfolding Rom.load_state
  rom_loaded r chr hc hl e same =
      let old = record r { chr = chr } in
      let unread : Bool → List ℕ = λ b.
        (put_uint 4 r.crc32 ++ (if b then put_uint 4 (length r.chr) ++ r.chr else [])) ++ rest in
      elim (Bool-cases r.chr_ram) [
        | inl ram ↦
            let (filled, sized, crc) =
              read_uint32-put (put_uint 4 (length r.chr) ++ (r.chr ++ rest)) buf hb r.crc32 hc in
            let slice = read_byte_slice_to-put rest filled sized r.chr chr e hl in
            record {
              buf = slice.buf;
              sized = slice.sized;
              returns =
                  ap (λ b. Rom.load_state old (record { unread = unread b; buf = buf })) ram
                  ∙ ap (check_hash old) crc
                  ∙ hash_kept old (record {
                    unread = put_uint 4 (length r.chr) ++ (r.chr ++ rest);
                    buf = filled;
                  })
                  ∙ ap
                      (λ b.
                        if b
                        then with_chr old (
                            read_byte_slice_to chr (record {
                              unread = put_uint 4 (length r.chr) ++ (r.chr ++ rest);
                              buf = filled;
                            }))
                        else (
                          old,
                          true,
                          (record {
                            unread = put_uint 4 (length r.chr) ++ (r.chr ++ rest);
                            buf = filled;
                          }),
                        ))
                      ram
                  ∙ ap (with_chr old) slice.returns;
            }
        | inr flash ↦
            let (filled, sized, crc) = read_uint32-put rest buf hb r.crc32 hc in
            record {
              buf = filled;
              sized = sized;
              returns =
                  ap (λ b. Rom.load_state old (record { unread = unread b; buf = buf })) flash
                  ∙ ap (check_hash old) crc
                  ∙ hash_kept old (record { unread = rest; buf = filled })
                  ∙ ap
                      (λ b.
                        if b
                        then with_chr old
                            (read_byte_slice_to chr (record { unread = rest; buf = filled }))
                        else (old, true, (record { unread = rest; buf = filled })))
                      flash
                  ∙ ap (λ c. (record r { chr = c }, true, record { unread = rest; buf = filled }))
                      (same flash);
            }
      ]

-- Each part of the mapper fits the width that it is saved with.
pub record Fits (m : Mapper4) : Type 0 where
  pub crc32 : m.rom.crc32 < 2 ^ 32
  pub chr : length m.rom.chr < 2 ^ 32
  pub sram : length m.sram < 2 ^ 32
  pub mirror : m.mirror < 256
  pub prg_mode : m.prg_mode < 256
  pub chr_mode : m.chr_mode < 256
  pub target_reg : m.target_reg < 256
  pub irq_counter : m.irq_counter < 256
  pub irq_reload : m.irq_reload < 256
  pub registers : AllWords m.registers
  pub chr_bank : AllWords m.chr_bank
  pub prg_bank : AllWords m.prg_bank

-- The arrays have the sizes of another mapper's.
pub record Alike (m old : Mapper4) : Type 0 where
  pub sram : length old.sram ≡ length m.sram
  pub registers : length old.registers ≡ length m.registers
  pub chr_bank : length old.chr_bank ≡ length m.chr_bank
  pub prg_bank : length old.prg_bank ≡ length m.prg_bank

module _ (m : Mapper4) (rest : List ℕ) where
  after_reload : List ℕ
  after_reload =
      words_bytes m.registers ++ (words_bytes m.chr_bank ++ (words_bytes m.prg_bank ++ rest))

  after_sram : List ℕ
  after_sram =
      m.mirror
      ∷ m.prg_mode
      ∷ m.chr_mode
      ∷ m.target_reg
      ∷ (if m.irq_enable then 1 else 0)
      ∷ m.irq_counter
      ∷ m.irq_reload
      ∷ after_reload

  written :
      Fits m
      → Mapper4.save_state m [] ++ rest
        ≡ rom_bytes m.rom ++ (put_uint 4 (length m.sram) ++ (m.sram ++ after_sram))
  unfolding Mapper4.save_state after_sram after_reload
  written f =
      words_written m.prg_bank _ _ f.prg_bank
      ∙ words_written m.chr_bank _ _ f.chr_bank
      ∙ words_written m.registers _ _ f.registers
      ∙ byte_written m.irq_reload _ _
      ∙ byte_written m.irq_counter _ _
      ∙ bool_written m.irq_enable _ _
      ∙ byte_written m.target_reg _ _
      ∙ byte_written m.chr_mode _ _
      ∙ byte_written m.prg_mode _ _
      ∙ byte_written m.mirror _ _
      ∙ slice_written m.sram _ _ f.sram
      ∙ rom_written m.rom [] _ f.chr

arrays_loaded :
    (m old : Mapper4) (rest buf : List ℕ)
    → Fits m
    → length old.registers ≡ length m.registers
    → length old.chr_bank ≡ length m.chr_bank
    → length old.prg_bank ≡ length m.prg_bank
    → length buf ≡ 8
    → Reads
        (load_arrays old (record { unread = after_reload m rest; buf = buf }))
        (record old { registers = m.registers; chr_bank = m.chr_bank; prg_bank = m.prg_bank })
        rest
unfolding load_arrays after_reload
arrays_loaded m old rest buf f r c p hb =
    let s1 =
      words_loaded m.registers old.registers
        (words_bytes m.chr_bank ++ (words_bytes m.prg_bank ++ rest)) buf f.registers r hb in
    let s2 =
      words_loaded m.chr_bank old.chr_bank (words_bytes m.prg_bank ++ rest) s1.buf f.chr_bank c
        s1.sized in
    let s3 = words_loaded m.prg_bank old.prg_bank rest s2.buf f.prg_bank p s2.sized in
    record {
      buf = s3.buf;
      sized = s3.sized;
      returns = rw (s1.returns, s2.returns, s3.returns) refl;
    }

fields_loaded :
    (m old : Mapper4) (chr rest buf : List ℕ)
    → Fits m
    → Alike m old
    → length chr ≡ length m.rom.chr
    → (m.rom.chr_ram ≡ false → chr ≡ m.rom.chr)
    → length buf ≡ 8
    → Reads
        (load_fields
          (record old { rom = record m.rom { chr = chr } })
          (record {
            unread =
                rom_bytes m.rom ++ (put_uint 4 (length m.sram) ++ (m.sram ++ after_sram m rest));
            buf = buf;
          }))
        (record m {
          registers = old.registers;
          chr_bank = old.chr_bank;
          prg_bank = old.prg_bank;
          irq_pending = old.irq_pending;
        })
        (after_reload m rest)
unfolding load_fields after_sram
fields_loaded m old chr rest buf f alike e same hb =
    let tail = after_reload m rest in
    let flag = if m.irq_enable then 1 else 0 in
    let s0 =
      rom_loaded (put_uint 4 (length m.sram) ++ (m.sram ++ after_sram m rest)) buf hb m.rom chr
        f.crc32 f.chr e same in
    let s1 =
      read_byte_slice_to-put (after_sram m rest) s0.buf s0.sized m.sram old.sram alike.sram
        f.sram in
    let s2 =
      read_uint8_to-byte
        (m.prg_mode ∷ m.chr_mode ∷ m.target_reg ∷ flag ∷ m.irq_counter ∷ m.irq_reload ∷ tail) s1.buf
        s1.sized m.mirror old.mirror f.mirror in
    let s3 =
      read_uint8_to-byte (m.chr_mode ∷ m.target_reg ∷ flag ∷ m.irq_counter ∷ m.irq_reload ∷ tail)
        s2.buf s2.sized m.prg_mode old.prg_mode f.prg_mode in
    let s4 =
      read_uint8_to-byte (m.target_reg ∷ flag ∷ m.irq_counter ∷ m.irq_reload ∷ tail) s3.buf s3.sized
        m.chr_mode old.chr_mode f.chr_mode in
    let s5 =
      read_uint8_to-byte (flag ∷ m.irq_counter ∷ m.irq_reload ∷ tail) s4.buf s4.sized m.target_reg
        old.target_reg f.target_reg in
    let s6 =
      read_bool_to-byte (m.irq_counter ∷ m.irq_reload ∷ tail) s5.buf s5.sized m.irq_enable
        old.irq_enable in
    let s7 =
      read_uint8_to-byte (m.irq_reload ∷ tail) s6.buf s6.sized m.irq_counter old.irq_counter
        f.irq_counter in
    let s8 = read_uint8_to-byte tail s7.buf s7.sized m.irq_reload old.irq_reload f.irq_reload in
    record {
      buf = s8.buf;
      sized = s8.sized;
      returns =
          rw
            (
              s0.returns, s1.returns, s2.returns, s3.returns, s4.returns, s5.returns, s6.returns,
              s7.returns, s8.returns,
            )
            refl;
    }

-- An MMC3 cartridge that was saved is loaded again over any other state of the same ROM, whatever
-- follows in the buffer, but for the pending interrupt: that one stays as it is.
pub load_state-save_state_mapper4 :
    (m old : Mapper4) (chr rest buf : List ℕ)
    → Fits m
    → Alike m old
    → length chr ≡ length m.rom.chr
    → (m.rom.chr_ram ≡ false → chr ≡ m.rom.chr)
    → length buf ≡ 8
    → Reads
        (Mapper4.load_state
          (record old { rom = record m.rom { chr = chr } })
          (record { unread = Mapper4.save_state m [] ++ rest; buf = buf }))
        (record m { irq_pending = old.irq_pending })
        rest
unfolding Mapper4.load_state
load_state-save_state_mapper4 m old chr rest buf f alike e same hb =
    let fields = fields_loaded m old chr rest buf f alike e same hb in
    let mid = record m {
      registers = old.registers;
      chr_bank = old.chr_bank;
      prg_bank = old.prg_bank;
      irq_pending = old.irq_pending;
    } in
    let arrays =
      arrays_loaded m mid rest fields.buf f alike.registers alike.chr_bank alike.prg_bank
        fields.sized in
    let load = λ (bytes : List ℕ).
      Mapper4.load_state (record old { rom = record m.rom { chr = chr } })
        (record { unread = bytes; buf = buf }) in
    record {
      buf = arrays.buf;
      sized = arrays.sized;
      returns =
          ap load (written m rest f)
          ∙ ap (λ t. let (loaded, ok, r) = load_arrays t.0 t.2 in (loaded, t.1 && ok, r))
              fields.returns
          ∙ ap (λ t. (t.0, true && t.1, t.2)) arrays.returns;
    }
