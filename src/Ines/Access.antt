-- ===== src/Ines/Access.antt =====
-- No access to an MMC3 cartridge of ines/mapper004.go panics, once it was reset with a whole ROM.
use dendy.Prelude.{
  ℕ, zero, suc, ◌+◌, ◌-◌, ◌/◌, ◌%◌, ◌≤◌, ◌<◌, ◌≡◌, refl, arith, leb, ◌&&◌, inl, inr, Bool-cases,
  some, List, length, get_elem?, get_or, set, get_elem?-eq-get_or, lt→ltb,
}
use dendy.Ines.Rom.{set_elem?}
use dendy.Ines.Mapper4.{Mapper4, read_prg, read_chr}
use dendy.Ines.Banks.{Inside, nil, cons, IsBanked, Gives}

pub set_elem?-Gives : (xs : List ℕ) (i v : ℕ) → i < length xs → set_elem? xs i v ≡ some (set xs i v)
set_elem?-Gives xs i v h = rw (lt→ltb i (length xs) h) refl

-- An address inside one of the banks.
pub bank_read :
    {size limit : ℕ} {starts : List ℕ} (i rel : ℕ)
    → Inside size limit starts
    → i < length starts
    → rel < size
    → Gives (λ s. s + rel < limit) (get_elem? starts i)
bank_read i rel nil h r = absurd (omega arith)
bank_read zero rel (cons {start = s} fits rest) h r = record {
  value = s;
  gives = refl;
  holds = omega arith;
}
bank_read (suc i) rel (cons fits rest) h r = bank_read i rel rest (omega arith) r

get_Gives : (xs : List ℕ) (i : ℕ) → i < length xs → (v : ℕ) × (get_elem? xs i ≡ some v)
get_Gives xs i h = (get_or xs i 0, get_elem?-eq-get_or xs i 0 h)

module _ (m : Mapper4) (b : IsBanked m) where
  pub read_prg-returns : (addr : ℕ) → addr < 0x10000 → (v : ℕ) × (read_prg m addr ≡ some v)
  unfolding read_prg
  read_prg-returns addr h =
      let sram = b.whole.sram in
      let counted = b.prg.counted in
      elim (Bool-cases (leb 0x6000 addr && leb addr 0x7FFF)) [
        | inl p ↦
            let (v, e) = get_Gives m.sram (addr - 0x6000) (ground arith) in (v, rw (p, e) refl)
        | inr p ↦ elim (Bool-cases (leb 0x8000 addr)) [
          | inl q ↦
              let high : 0x8000 ≤ addr = ground arith in
              let rel = (addr - 0x8000) % 0x2000 in
              let start =
                bank_read ((addr - 0x8000) / 0x2000) rel b.prg.inside (omega arith) (omega arith) in
              let (v, e) = get_Gives m.rom.prg (start.value + rel) start.holds in
              (v, rw (p, q, start.gives, e) refl)
          | inr q ↦ (0, rw (p, q) refl)
        ]
      ]

  pub read_chr-returns : (addr : ℕ) → (v : ℕ) × (read_chr m addr ≡ some v)
  unfolding read_chr
  read_chr-returns addr =
      let counted = b.chr.counted in
      elim (Bool-cases (leb addr 0x1FFF)) [
        | inl q ↦
            let low : addr ≤ 0x1FFF = ground arith in
            let rel = addr % 0x0400 in
            let start = bank_read (addr / 0x0400) rel b.chr.inside (omega arith) (omega arith) in
            let (v, e) = get_Gives m.rom.chr (start.value + rel) start.holds in
            (v, rw (q, start.gives, e) refl)
        | inr q ↦ (0, rw q refl)
      ]
