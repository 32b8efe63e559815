-- ===== src/Ines/Rom.antt =====
-- ines/rom.go: the ROM image, read from the bytes of an iNES file, and its part of a save state.
use dendy.Prelude.{
  ℕ, ◌*◌, bit_and, bit_or, shr, ltb, ◌==◌, if◌then◌else◌, Bool, true, false, not, ◌&&◌, Option,
  none, some, ◌>>=◌, List, [], ◌∷◌, ◌++◌, length, take, drop, replicate, get_or, set,
}
use dendy.Binario.Writer.{Writer, write_uint32, write_byte_slice}
use dendy.Binario.Reader.{Reader, overwrite, read_uint32, read_byte_slice_to}

abbrev pub mirror_horizontal : ℕ
mirror_horizontal = 0

abbrev pub mirror_vertical : ℕ
mirror_vertical = 1

abbrev pub mirror_single0 : ℕ
mirror_single0 = 2

abbrev pub mirror_single1 : ℕ
mirror_single1 = 3

pub record Rom : Type 0 where
  pub mirror_mode : ℕ  -- uint8
  pub mapper_id : ℕ  -- uint8
  pub battery : Bool
  pub prg_banks : ℕ  -- int, never negative
  pub chr_banks : ℕ  -- int, never negative
  pub prg : List ℕ
  pub chr : List ℕ
  pub crc32 : ℕ  -- uint32
  pub chr_ram : Bool

-- `xs[i] = v`; `none` is the panic.
abbrev pub set_elem? : List ℕ → ℕ → ℕ → Option (List ℕ)
set_elem? xs i v = if ltb i (length xs) then some (set xs i v) else none

-- `Read` of a `bytes.Reader` into a zeroed slice of `n` bytes: the slice, the bytes read and those
-- left. At the end of the file it fails, even for no bytes.
unfoldable pub read_file : ℕ → List ℕ → Option (List ℕ × List ℕ × List ℕ)
read_file n [] = none
read_file n (b ∷ bs) =
    some (overwrite (replicate n 0) (take n (b ∷ bs)), take n (b ∷ bs), drop n (b ∷ bs))

-- A read that may also meet the end of the file.
abbrev pub or_empty : ℕ → List ℕ → Option (List ℕ × List ℕ × List ℕ) → List ℕ × List ℕ × List ℕ
or_empty n bs none = (replicate n 0, [], bs)
or_empty n bs (some r) = r

-- `newROM` on the bytes of a file; `crc` is `crc32.ChecksumIEEE` of what the reads went through.
module _ (crc : List ℕ → ℕ) where
  unfoldable pub load_rom : List ℕ → List ℕ → Option Rom
  load_rom header file = do
    let flags6 = get_or header 6 0
    let mapper_id = bit_or (bit_and (shr flags6 4) 0x0F) (bit_and (get_or header 7 0) 0xF0)
    let prg_banks = get_or header 4 0
    let chr_banks = get_or header 5 0
    let body = if bit_and flags6 4 == 0 then file else drop 512 file
    (prg, prg_read, after_prg) ← read_file (prg_banks * 16384) body
    let (chr, chr_read, after_chr) =
        or_empty (chr_banks * 8192) after_prg (read_file (chr_banks * 8192) after_prg)
    let chr_ram = length chr == 0
    some record {
      mirror_mode = bit_and flags6 1;
      mapper_id = mapper_id;
      battery = not (bit_and flags6 2 == 0);
      prg_banks = prg_banks;
      chr_banks = chr_banks;
      prg = prg;
      chr = if chr_ram then replicate 8192 0 else chr;
      crc32 = crc (prg_read ++ chr_read);
      chr_ram = chr_ram;
    }

  unfoldable pub new_from_buffer : List ℕ → Option Rom
  new_from_buffer buf = do
    (header, got, file) ← read_file 16 buf
    if (get_or header 0 0 == 0x4E)
          && (get_or header 1 0 == 0x45)
          && (get_or header 2 0 == 0x53)
          && (get_or header 3 0 == 0x1A)
        then load_rom header file
        else none

unfoldable pub save_state : Rom → Writer → Writer
save_state r w =
    let hashed = write_uint32 r.crc32 w in
    if r.chr_ram then write_byte_slice r.chr hashed else hashed

abbrev pub with_chr : Rom → List ℕ × Bool × Reader → Rom × Bool × Reader
with_chr r (chr, ok, reader) = (record r { chr = chr }, ok, reader)

abbrev pub check_hash : Rom → Option ℕ × Reader → Rom × Bool × Reader
check_hash r (none, reader) = (r, false, reader)
check_hash r (some hash, reader) =
    if hash == r.crc32
    then (if r.chr_ram then with_chr r (read_byte_slice_to r.chr reader) else (r, true, reader))
    else (r, false, reader)

unfoldable pub load_state : Rom → Reader → Rom × Bool × Reader
load_state r reader = check_hash r (read_uint32 reader)
