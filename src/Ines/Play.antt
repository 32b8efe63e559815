-- ===== src/Ines/Play.antt =====
-- Writes to an MMC3 cartridge of ines/mapper004.go, and whole runs of accesses.
use dendy.Prelude.{
  ℕ, ◌+◌, ◌-◌, ◌/◌, ◌%◌, ◌≤◌, ◌≡◌, refl, sym, subst, ◌∙◌, arith, bit_and, leb, ◌==◌, ◌&&◌, not, inl,
  inr, Bool, true, false, Bool-cases, some, List, length, length-set, set, shr, if◌then◌else◌,
}
use dendy.Prelude.Bits.{and_le_right}
use dendy.Ines.Rom.{mirror_horizontal, mirror_vertical}
use dendy.Ines.Mapper4.{
  Mapper4, write_mirror, write_bank_select, write_bank_data, write_register, write_prg, write_chr,
  scanline_tick,
}
use dendy.Ines.Banks.{AreBanks, IsBanked, Gives, update_banks-Gives}
use dendy.Ines.Access.{set_elem?-Gives, bank_read}

pub given : {A : Type 0} {P : A → Type 0} (a : A) → P a → Gives P (some a)
given a p = record { value = a; gives = refl; holds = p }

branch : {A : Type 0} (P : A → Type 0) (c : Bool) {x y : A} → P x → P y → P (if c then x else y)
branch P true p q = p
branch P false p q = q

module _ (m : Mapper4) (b : IsBanked m) where
  write_bank_select-Gives : (value : ℕ) → Gives IsBanked (write_bank_select m value)
  unfolding write_bank_select
  write_bank_select-Gives value =
      let target = and_le_right value 7 in
      let prg = and_le_right (shr value 6) 1 in
      let chr = and_le_right (shr value 7) 1 in
      update_banks-Gives _ (record {
        prg_some = b.whole.prg_some;
        prg_size = b.whole.prg_size;
        chr_count = b.whole.chr_count;
        chr_some = b.whole.chr_some;
        chr_size = b.whole.chr_size;
        sram = b.whole.sram;
        registers = b.whole.registers;
        target = omega arith;
        prg_mode = omega arith;
        chr_mode = omega arith;
      })

  write_bank_data-Gives : (value : ℕ) → Gives IsBanked (write_bank_data m value)
  unfolding write_bank_data
  write_bank_data-Gives value =
      let size = b.whole.registers in
      let target = b.whole.target in
      rw (set_elem?-Gives m.registers m.target_reg value (omega arith)) (
        update_banks-Gives (record m { registers = set m.registers m.target_reg value })
          (record {
            prg_some = b.whole.prg_some;
            prg_size = b.whole.prg_size;
            chr_count = b.whole.chr_count;
            chr_some = b.whole.chr_some;
            chr_size = b.whole.chr_size;
            sram = b.whole.sram;
            registers = length-set m.registers m.target_reg value ∙ size;
            target = target;
            prg_mode = b.whole.prg_mode;
            chr_mode = b.whole.chr_mode;
          }))

  -- What the invariant says does not depend on the other fields.
  pub other_fields :
      (mirror : ℕ) (irq_enable irq_pending : Bool) (irq_counter irq_reload : ℕ)
      → IsBanked (record m {
        mirror = mirror;
        irq_enable = irq_enable;
        irq_pending = irq_pending;
        irq_counter = irq_counter;
        irq_reload = irq_reload;
      })
  other_fields mirror irq_enable irq_pending irq_counter irq_reload = record {
    whole = record {
      prg_some = b.whole.prg_some;
      prg_size = b.whole.prg_size;
      chr_count = b.whole.chr_count;
      chr_some = b.whole.chr_some;
      chr_size = b.whole.chr_size;
      sram = b.whole.sram;
      registers = b.whole.registers;
      target = b.whole.target;
      prg_mode = b.whole.prg_mode;
      chr_mode = b.whole.chr_mode;
    };
    prg = b.prg;
    chr = b.chr;
  }

  same_banks :
      (sram chr : List ℕ)
      → length sram ≡ length m.sram
      → length chr ≡ length m.rom.chr
      → IsBanked (record m { sram = sram; rom = record m.rom { chr = chr } })
  same_banks sram chr s c = record {
    whole = record {
      prg_some = b.whole.prg_some;
      prg_size = b.whole.prg_size;
      chr_count = b.whole.chr_count;
      chr_some = b.whole.chr_some;
      chr_size = c ∙ b.whole.chr_size;
      sram = s ∙ b.whole.sram;
      registers = b.whole.registers;
      target = b.whole.target;
      prg_mode = b.whole.prg_mode;
      chr_mode = b.whole.chr_mode;
    };
    prg = b.prg;
    chr = subst (λ limit. AreBanks 8 0x0400 limit m.chr_bank) (sym c) b.chr;
  }

  pub scanline_tick-IsBanked : IsBanked (scanline_tick m)
  unfolding scanline_tick
  scanline_tick-IsBanked = elim (Bool-cases (m.irq_counter == 0)) [
    | inl p ↦ rw p (other_fields m.mirror m.irq_enable m.irq_pending m.irq_reload m.irq_reload)
    | inr p ↦ elim (Bool-cases (m.irq_counter - 1 == 0)) [
      | inl q ↦
          rw (p, q)
            (other_fields m.mirror m.irq_enable m.irq_enable (m.irq_counter - 1) m.irq_reload)
      | inr q ↦
          rw (p, q)
            (other_fields m.mirror m.irq_enable m.irq_pending (m.irq_counter - 1) m.irq_reload)
    ]
  ]

  write_register-Gives : (addr value : ℕ) → Gives IsBanked (write_register m addr value)
  unfolding write_register write_mirror
  write_register-Gives addr value =
      let even = addr % 2 == 0 in
      let mirrored = if bit_and value 1 == 0 then mirror_vertical else mirror_horizontal in
      branch (Gives IsBanked) (leb 0x8000 addr && leb addr 0x9FFF)
        (branch (Gives IsBanked) even (write_bank_select-Gives value) (write_bank_data-Gives value))
        (branch (Gives IsBanked) (leb 0xA000 addr && leb addr 0xBFFF)
          (given _ (
            branch IsBanked even
              (other_fields mirrored m.irq_enable m.irq_pending m.irq_counter m.irq_reload) b))
          (branch (Gives IsBanked) (leb 0xC000 addr && leb addr 0xDFFF)
            (given _ (
              branch IsBanked even
                (other_fields m.mirror m.irq_enable m.irq_pending m.irq_counter value)
                (other_fields m.mirror m.irq_enable m.irq_pending 0 m.irq_reload)))
            (branch (Gives IsBanked) (leb 0xE000 addr)
              (given _ (other_fields m.mirror (not even) m.irq_pending m.irq_counter m.irq_reload))
              (given m b))))

  pub write_prg-Gives : (addr value : ℕ) → Gives IsBanked (write_prg m addr value)
  unfolding write_prg
  write_prg-Gives addr value = elim (Bool-cases (leb 0x6000 addr && leb addr 0x7FFF)) [
    | inl p ↦
        let size = b.whole.sram in
        rw (p, set_elem?-Gives m.sram (addr - 0x6000) value (ground arith))
          (given _ (
            same_banks (set m.sram (addr - 0x6000) value) m.rom.chr
              (length-set m.sram (addr - 0x6000) value) refl))
    | inr p ↦ elim (Bool-cases (leb 0x8000 addr)) [
      | inl q ↦ rw (p, q) (write_register-Gives addr value)
      | inr q ↦ rw (p, q) (given m b)
    ]
  ]

  pub write_chr-Gives : (addr value : ℕ) → Gives IsBanked (write_chr m addr value)
  unfolding write_chr
  write_chr-Gives addr value =
      let counted = b.chr.counted in
      elim (Bool-cases (m.rom.chr_ram && leb addr 0x1FFF)) [
        | inl p ↦
            let low : addr ≤ 0x1FFF = ground arith in
            let rel = addr % 0x0400 in
            let start = bank_read (addr / 0x0400) rel b.chr.inside (omega arith) (omega arith) in
            let at = start.value + rel in
            rw (p, start.gives, set_elem?-Gives m.rom.chr at value start.holds)
              (given _
                (same_banks m.sram (set m.rom.chr at value) refl (length-set m.rom.chr at value)))
        | inr p ↦ rw p (given m b)
      ]
