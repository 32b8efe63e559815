-- ===== src/Ines/Banks.antt =====
-- The banks of ines/mapper004.go stay inside the ROM, so no access of a ROM from a file panics.
use dendy.Prelude.{
  ℕ, suc, ◌+◌, ◌-◌, ◌*◌, ◌/◌, ◌%◌, ◌≤◌, ◌<◌, ◌≡◌, refl, arith, bit_and, bit_or, ltb, ◌==◌, inl, inr,
  true, false, Bool-cases, Option, some, List, [], ◌∷◌, length, get_elem?, get_or,
  get_elem?-eq-get_or, pos, negsuc,
}
use native.Mathlib.Nat.{mod-lt}
use dendy.Ines.Mapper4.{
  Mapper4, bank_start, prg_offset, chr_offset, prg_banks, chr_banks, update_banks,
}

-- A bank of so many bytes starts at each address of the list, below the limit.
pub data Inside (size limit : ℕ) : List ℕ → Type 0 where
  nil : Inside size limit []
  cons :
      {start : ℕ} {starts : List ℕ}
      → start + size ≤ limit
      → Inside size limit starts
      → Inside size limit (start ∷ starts)

-- The memories of the ROM are whole, there is PRG, and the registers are in range.
pub record IsWhole (m : Mapper4) : Type 0 where
  pub prg_some : 0 < m.rom.prg_banks
  pub prg_size : length m.rom.prg ≡ m.rom.prg_banks * 0x4000
  pub chr_count : ℕ
  pub chr_some : 0 < chr_count
  pub chr_size : length m.rom.chr ≡ chr_count * 0x2000
  pub sram : length m.sram ≡ 0x2000
  pub registers : length m.registers ≡ 8
  pub target : m.target_reg < 8
  pub prg_mode : m.prg_mode < 2
  pub chr_mode : m.chr_mode < 2

-- Banks of so many bytes, all below the limit.
pub record AreBanks (count size limit : ℕ) (starts : List ℕ) : Type 0 where
  pub counted : length starts ≡ count
  pub inside : Inside size limit starts

pub record IsBanked (m : Mapper4) : Type 0 where
  pub whole : IsWhole m
  pub prg : AreBanks 4 0x2000 (length m.rom.prg) m.prg_bank
  pub chr : AreBanks 8 0x0400 (length m.rom.chr) m.chr_bank

-- A call that does not panic, with a property of its result.
pub record Gives {A : Type 0} (P : A → Type 0) (o : Option A) : Type 0 where
  pub value : A
  pub gives : o ≡ some value
  pub holds : P value

bank_start-Gives :
    (idx count size limit : ℕ)
    → 0 < count
    → ((r : ℕ) → r < count → r * size + size ≤ limit)
    → Gives (λ s. s + size ≤ limit) (bank_start idx count size)
bank_start-Gives idx count size limit some_count fits =
    let busy : (count == 0) ≡ false = ground arith in
    record {
      value = idx % count * size;
      gives = rw busy refl;
      holds = fits (idx % count) (mod-lt idx some_count);
    }

module _ (m : Mapper4) (w : IsWhole m) where
  from_start : (n : ℕ) → Gives (λ s. s + 0x2000 ≤ length m.rom.prg) (prg_offset m.rom (pos n))
  unfolding prg_offset
  from_start n =
      let size = w.prg_size in
      let some_prg = w.prg_some in
      bank_start-Gives n (length m.rom.prg / 0x2000) 0x2000 (length m.rom.prg) (omega arith)
        (λ r h. omega arith)

  from_end :
      (n : ℕ) → n < 2 → Gives (λ s. s + 0x2000 ≤ length m.rom.prg) (prg_offset m.rom (negsuc n))
  unfolding prg_offset
  from_end n h =
      let size = w.prg_size in
      let some_prg = w.prg_some in
      let enough : ltb (m.rom.prg_banks * 2) (suc n) ≡ false = ground arith in
      let start =
        bank_start-Gives (m.rom.prg_banks * 2 - suc n) (length m.rom.prg / 0x2000) 0x2000
          (length m.rom.prg) (omega arith) (λ r h. omega arith) in
      record { value = start.value; gives = rw enough start.gives; holds = start.holds }

  chr_at : (idx : ℕ) → Gives (λ s. s + 0x0400 ≤ length m.rom.chr) (chr_offset m.rom idx)
  unfolding chr_offset
  chr_at idx =
      let size = w.chr_size in
      let some_chr = w.chr_some in
      bank_start-Gives idx (length m.rom.chr / 0x0400) 0x0400 (length m.rom.chr) (omega arith)
        (λ r h. omega arith)

  register : (i : ℕ) → i < 8 → get_elem? m.registers i ≡ some (get_or m.registers i 0)
  register i h = let size = w.registers in get_elem?-eq-get_or m.registers i 0 (omega arith)

  prg_banks-Gives : Gives (AreBanks 4 0x2000 (length m.rom.prg)) (prg_banks m)
  unfolding prg_banks
  prg_banks-Gives =
      let b6 = from_start (get_or m.registers 6 0) in
      let b7 = from_start (get_or m.registers 7 0) in
      let e2 = from_end 1 (omega arith) in
      let e1 = from_end 0 (omega arith) in
      let r6 = register 6 (omega arith) in
      let r7 = register 7 (omega arith) in
      let mode = w.prg_mode in
      elim (Bool-cases (m.prg_mode == 0)) [
        | inl p ↦ record {
          value = b6.value ∷ b7.value ∷ e2.value ∷ e1.value ∷ [];
          gives = rw (r6, r7, b6.gives, b7.gives, e2.gives, e1.gives, p) refl;
          holds = record {
            counted = refl;
            inside = cons b6.holds (cons b7.holds (cons e2.holds (cons e1.holds nil)));
          };
        }
        | inr p ↦
            let q : (m.prg_mode == 1) ≡ true = ground arith in
            record {
              value = e2.value ∷ b7.value ∷ b6.value ∷ e1.value ∷ [];
              gives = rw (r6, r7, b6.gives, b7.gives, e2.gives, e1.gives, p, q) refl;
              holds = record {
                counted = refl;
                inside = cons e2.holds (cons b7.holds (cons b6.holds (cons e1.holds nil)));
              };
            }
      ]

  chr_banks-Gives : Gives (AreBanks 8 0x0400 (length m.rom.chr)) (chr_banks m)
  unfolding chr_banks
  chr_banks-Gives =
      let even0 = chr_at (bit_and (get_or m.registers 0 0) 0xFE) in
      let odd0 = chr_at (bit_or (get_or m.registers 0 0) 0x01) in
      let even1 = chr_at (bit_and (get_or m.registers 1 0) 0xFE) in
      let odd1 = chr_at (bit_or (get_or m.registers 1 0) 0x01) in
      let b2 = chr_at (get_or m.registers 2 0) in
      let b3 = chr_at (get_or m.registers 3 0) in
      let b4 = chr_at (get_or m.registers 4 0) in
      let b5 = chr_at (get_or m.registers 5 0) in
      let mode = w.chr_mode in
      let pairs : (v : List ℕ)
          → Inside 0x0400 (length m.rom.chr) v
          → Inside 0x0400 (length m.rom.chr)
              (even0.value ∷ odd0.value ∷ even1.value ∷ odd1.value ∷ v) =
        λ v h. cons even0.holds (cons odd0.holds (cons even1.holds (cons odd1.holds h))) in
      let singles : (v : List ℕ)
          → Inside 0x0400 (length m.rom.chr) v
          → Inside 0x0400 (length m.rom.chr) (b2.value ∷ b3.value ∷ b4.value ∷ b5.value ∷ v) =
        λ v h. cons b2.holds (cons b3.holds (cons b4.holds (cons b5.holds h))) in
      elim (Bool-cases (m.chr_mode == 0)) [
        | inl p ↦ record {
          value =
              even0.value ∷ odd0.value ∷ even1.value ∷ odd1.value ∷ b2.value ∷ b3.value ∷ b4.value
              ∷ b5.value ∷ [];
          gives =
              rw
                (
                  register 0 (omega arith),
                  register 1 (omega arith),
                  register 2 (omega arith),
                  register 3 (omega arith),
                  register 4 (omega arith),
                  register 5 (omega arith),
                  even0.gives,
                  odd0.gives,
                  even1.gives,
                  odd1.gives,
                  b2.gives,
                  b3.gives,
                  b4.gives,
                  b5.gives,
                  p,
                )
                refl;
          holds = record { counted = refl; inside = pairs _ (singles _ nil) };
        }
        | inr p ↦
            let q : (m.chr_mode == 1) ≡ true = ground arith in
            record {
              value =
                  b2.value ∷ b3.value ∷ b4.value ∷ b5.value ∷ even0.value ∷ odd0.value ∷ even1.value
                  ∷ odd1.value ∷ [];
              gives =
                  rw
                    (
                      register 0 (omega arith),
                      register 1 (omega arith),
                      register 2 (omega arith),
                      register 3 (omega arith),
                      register 4 (omega arith),
                      register 5 (omega arith),
                      even0.gives,
                      odd0.gives,
                      even1.gives,
                      odd1.gives,
                      b2.gives,
                      b3.gives,
                      b4.gives,
                      b5.gives,
                      p,
                      q,
                    )
                    refl;
              holds = record { counted = refl; inside = singles _ (pairs _ nil) };
            }
      ]

  pub update_banks-Gives : Gives IsBanked (update_banks m)
  unfolding update_banks
  update_banks-Gives =
      let prg = prg_banks-Gives in
      let chr = chr_banks-Gives in
      record {
        value = record m { prg_bank = prg.value; chr_bank = chr.value };
        gives = rw (prg.gives, chr.gives) refl;
        holds = record {
          whole = record {
            prg_some = w.prg_some;
            prg_size = w.prg_size;
            chr_count = w.chr_count;
            chr_some = w.chr_some;
            chr_size = w.chr_size;
            sram = w.sram;
            registers = w.registers;
            target = w.target;
            prg_mode = w.prg_mode;
            chr_mode = w.chr_mode;
          };
          prg = prg.holds;
          chr = chr.holds;
        };
      }
