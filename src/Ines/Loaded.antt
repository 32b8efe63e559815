-- ===== src/Ines/Loaded.antt =====
-- What holds of a ROM that was read from a file.
use dendy.Prelude.{
  ℕ, ◌*◌, ◌≤◌, ◌<◌, ◌≡◌, ◌∙◌, subst, arith, bit_and, ◌==◌, ◌&&◌, true, false, Bool-cases, inl, inr,
  Option, none, some, Option-cases, List, [], ◌∷◌, length, length-replicate, take, drop, replicate,
  get_or, if◌then◌else◌,
}
use dendy.Prelude.Bits.{and_le_right}
use dendy.Binario.RoundTrip.{length-overwrite}
use dendy.Ines.Rom.{Rom, read_file, or_empty, load_rom, new_from_buffer}

-- The sizes of the two memories are those of the banks; without CHR banks there are 8 KB of RAM.
pub record IsLoaded (rom : Rom) : Type 0 where
  pub mirror : rom.mirror_mode ≤ 1
  pub prg_size : length rom.prg ≡ rom.prg_banks * 0x4000
  pub chr_rom : rom.chr_ram ≡ false → length rom.chr ≡ rom.chr_banks * 0x2000
  pub chr_banked : rom.chr_ram ≡ false → 0 < rom.chr_banks
  pub chr_size : rom.chr_ram ≡ true → length rom.chr ≡ 0x2000

-- A property of the value, if there is one.
data IfSome {A : Type 0} (P : A → Type 0) : Option A → Type 0 where
  nothing : IfSome P none
  just : {a : A} → P a → IfSome P (some a)

from_some : {A : Type 0} {P : A → Type 0} {a : A} → IfSome P (some a) → P a
from_some (just p) = p

length-read_file :
    (n : ℕ) (file : List ℕ)
    → IfSome (λ ((got, used, rest) : List ℕ × List ℕ × List ℕ). length got ≡ n) (read_file n file)
unfolding read_file
length-read_file n [] = nothing
length-read_file n (b ∷ bs) =
    just (length-overwrite (replicate n 0) (take n (b ∷ bs)) ∙ length-replicate n 0)

length-or_empty : (n : ℕ) (file : List ℕ) → length (or_empty n file (read_file n file)).0 ≡ n
unfolding read_file
length-or_empty n [] = length-replicate n 0
length-or_empty n (b ∷ bs) =
    length-overwrite (replicate n 0) (take n (b ∷ bs)) ∙ length-replicate n 0

module _ (crc : List ℕ → ℕ) where
  load_rom-Loaded : (header file : List ℕ) → IfSome IsLoaded (load_rom crc header file)
  unfolding load_rom
  load_rom-Loaded header file =
      let flags6 = get_or header 6 0 in
      let banks = get_or header 4 0 in
      let body = if bit_and flags6 4 == 0 then file else drop 512 file in
      let chr_banks = get_or header 5 0 in
      elim (Option-cases (read_file (banks * 16384) body)) [
        | inl e ↦ rw e nothing
        | inr ((prg, used, rest), e) ↦
            let sized = from_some (subst (IfSome _) e (length-read_file (banks * 16384) body)) in
            let chr = (or_empty (chr_banks * 8192) rest (read_file (chr_banks * 8192) rest)).0 in
            let chr_sized : length chr ≡ chr_banks * 8192 =
              length-or_empty (chr_banks * 8192) rest in
            elim (Bool-cases (length chr == 0)) [
              | inl ram ↦ rw e (
                  rw ram (
                    just record {
                      mirror = and_le_right flags6 1;
                      prg_size = sized;
                      chr_rom = λ h. absurd (ground arith);
                      chr_banked = λ h. absurd (ground arith);
                      chr_size = λ h. length-replicate {A = ℕ} 8192 0;
                    }))
              | inr rom ↦ rw e (
                  rw rom (
                    just record {
                      mirror = and_le_right flags6 1;
                      prg_size = sized;
                      chr_rom = λ h. chr_sized;
                      chr_banked = λ h. ground arith;
                      chr_size = λ h. absurd (ground arith);
                    }))
            ]
      ]

  new_from_buffer-Loaded : (buf : List ℕ) → IfSome IsLoaded (new_from_buffer crc buf)
  unfolding new_from_buffer
  new_from_buffer-Loaded buf = elim (Option-cases (read_file 16 buf)) [
    | inl e ↦ rw e nothing
    | inr ((header, used, file), e) ↦
        let signed =
          (get_or header 0 0 == 0x4E)
          && (get_or header 1 0 == 0x45)
          && (get_or header 2 0 == 0x53)
          && (get_or header 3 0 == 0x1A) in
        elim (Bool-cases signed) [
          | inl t ↦ rw e (rw t (load_rom-Loaded header file))
          | inr f ↦ rw e (rw f nothing)
        ]
  ]

  -- A ROM that is read from any file has memories of the sizes that its banks say, or 8 KB of RAM
  -- where it has no CHR banks.
  pub new_from_buffer-IsLoaded :
      (buf : List ℕ) (rom : Rom) → new_from_buffer crc buf ≡ some rom → IsLoaded rom
  new_from_buffer-IsLoaded buf rom h =
      from_some (subst (IfSome IsLoaded) h (new_from_buffer-Loaded buf))
