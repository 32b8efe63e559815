-- ===== src/Ines/Tests.antt =====
-- The theorems at concrete cartridges.
use dendy.Prelude.{ℕ, ◌≡◌, refl, arith, true, false, some, List, [], ◌∷◌, ◌++◌, length, replicate}
use dendy.Ines.Rom.{Rom, read_file, load_rom, new_from_buffer}
use dendy.Ines.Loaded.{IsLoaded, new_from_buffer-IsLoaded}
use dendy.Ines.Dispatch.{Call, Reply, replies_static, replies_dynamic, replies_agree}
use dendy.Ines.Run.{IsAccess, AllAccess, replies-Returns}
use dendy.Ines.Mapper1.{Mapper1, write_register, load_register}
use dendy.Ines.Serial.{shifting, load_register-five}
use dendy.Ines.Mapper4
use dendy.Ines.Mapper4.{Mapper4, pending_irq}
use dendy.Ines.Scanlines.{ticks, ticks-reload}
use dendy.Ines.SaveState.{load_state-save_state_mapper4}
use dendy.Ines.SaveWords
use dendy.Binario.RoundTrip.{Reads}

-- An iNES file of mapper 4 with one PRG bank, of which only the first byte is there.
abbrev image : List ℕ
image = 0x4E ∷ 0x45 ∷ 0x53 ∷ 0x1A ∷ 1 ∷ 0 ∷ 0x41 ∷ 0 ∷ 0 ∷ 0 ∷ 0 ∷ 0 ∷ 0 ∷ 0 ∷ 0 ∷ 0 ∷ 0xEA ∷ []

abbrev checksum : List ℕ → ℕ
checksum bytes = length bytes

abbrev tiny : Rom
tiny = record {
  mirror_mode = 1;
  mapper_id = 4;
  battery = false;
  prg_banks = 1;
  chr_banks = 0;
  prg = 0xEA ∷ replicate 16383 0;
  chr = replicate 8192 0;
  crc32 = 1;
  chr_ram = true;
}

image_read : new_from_buffer checksum image ≡ some tiny
unfolding new_from_buffer load_rom read_file
image_read = refl

new_from_buffer-IsLoaded_example : IsLoaded tiny
new_from_buffer-IsLoaded_example = new_from_buffer-IsLoaded checksum image tiny image_read

replies_agree_example :
    replies_static tiny (Call.reset ∷ Call.read_prg 0x8000 ∷ [])
    ≡ replies_dynamic tiny (Call.reset ∷ Call.read_prg 0x8000 ∷ [])
replies_agree_example = replies_agree tiny (Call.reset ∷ Call.read_prg 0x8000 ∷ [])

replies-Returns_example :
    (replies : List Reply) × (replies_dynamic tiny
        (Call.reset ∷ Call.write_prg 0x8000 7 ∷ Call.read_prg 0xFFFC ∷ [])
      ≡ some replies)
replies-Returns_example =
    replies-Returns checksum image tiny (Call.write_prg 0x8000 7 ∷ Call.read_prg 0xFFFC ∷ [])
      image_read refl (omega arith)
      (AllAccess.cons IsAccess.writes_prg
        (AllAccess.cons (IsAccess.reads_prg (omega arith)) AllAccess.nil))

abbrev serial : Mapper1
serial = record {
  rom = tiny;
  sram = [];
  control = 0x0C;
  prg_bank = 0;
  chr_bank0 = 0;
  chr_bank1 = 0;
  shift_register = 0x10;
  write_count = 0;
}

load_register-five_example :
    load_register
      (load_register
        (load_register (load_register (load_register serial 0x8000 1) 0x8000 0) 0x8000 1)
        0x8000
        1)
      0xE000
      0
    ≡ shifting (write_register serial 0xE000 13) 0x10 0
load_register-five_example =
    load_register-five serial 0x8000 0x8000 0x8000 0x8000 0xE000 1 0 1 1 0 refl refl refl refl refl
      refl refl

abbrev counting : Mapper4
counting = record {
  rom = tiny;
  sram = 1 ∷ 2 ∷ [];
  mirror = 1;
  chr_bank = 0 ∷ 1024 ∷ [];
  prg_bank = 8192 ∷ [];
  registers = 3 ∷ [];
  target_reg = 0;
  chr_mode = 0;
  prg_mode = 1;
  irq_enable = true;
  irq_counter = 0;
  irq_reload = 5;
  irq_pending = false;
}

ticks-reload_example :
    ((ticks 3 counting).irq_pending ≡ false)
    × (ticks 6 counting ≡ record counting { irq_pending = true })
    × (pending_irq (ticks 6 counting) ≡ (true, counting))
ticks-reload_example = ticks-reload counting 4 2 refl refl (omega arith)

abbrev other : Mapper4
other = record counting {
  sram = 0 ∷ 0 ∷ [];
  chr_bank = 0 ∷ 0 ∷ [];
  prg_bank = 0 ∷ [];
  registers = 0 ∷ [];
  irq_pending = true;
}

load_state-save_state_mapper4_example :
    Reads
      (Mapper4.load_state
        (record other { rom = record tiny { chr = replicate 8192 5 } })
        (record {
          unread = Mapper4.save_state counting [] ++ (77 ∷ []);
          buf = 9 ∷ 9 ∷ 9 ∷ 9 ∷ 9 ∷ 9 ∷ 9 ∷ 9 ∷ [];
        }))
      (record counting { irq_pending = true })
      (77 ∷ [])
load_state-save_state_mapper4_example =
    load_state-save_state_mapper4 counting other (replicate 8192 5) (77 ∷ [])
      (9 ∷ 9 ∷ 9 ∷ 9 ∷ 9 ∷ 9 ∷ 9 ∷ 9 ∷ [])
      (record {
        crc32 = omega arith;
        chr = omega arith;
        sram = omega arith;
        mirror = omega arith;
        prg_mode = omega arith;
        chr_mode = omega arith;
        target_reg = omega arith;
        irq_counter = omega arith;
        irq_reload = omega arith;
        registers = SaveWords.cons (omega arith) SaveWords.nil;
        chr_bank = SaveWords.cons (omega arith) (SaveWords.cons (omega arith) SaveWords.nil);
        prg_bank = SaveWords.cons (omega arith) SaveWords.nil;
      })
      (record { sram = refl; registers = refl; chr_bank = refl; prg_bank = refl }) refl
      (λ h. absurd (ground arith)) refl
