-- ===== src/Ppu/Address.antt =====
-- ppu/address.go, the address register of the picture unit.
use dendy.Prelude.{ℕ, ◌+◌, bit_and, bit_or, bit_xor, u16, shl, shr, ltb, ◌==◌, if◌then◌else◌}

abbrev pub bits_coarse_x : ℕ
bits_coarse_x = 0x001F

abbrev pub bits_coarse_y : ℕ
bits_coarse_y = 0x03E0

abbrev pub bits_nametable : ℕ
bits_nametable = 0x0C00

abbrev pub bits_nametable_x : ℕ
bits_nametable_x = 0x0400

abbrev pub bits_nametable_y : ℕ
bits_nametable_y = 0x0800

abbrev pub bits_fine_y : ℕ
bits_fine_y = 0x7000

abbrev pub bits_inv_coarse_x : ℕ
bits_inv_coarse_x = 0xFFE0

abbrev pub bits_inv_coarse_y : ℕ
bits_inv_coarse_y = 0xFC1F

abbrev pub bits_inv_nametable : ℕ
bits_inv_nametable = 0xF3FF

abbrev pub bits_inv_nametable_x : ℕ
bits_inv_nametable_x = 0xFBFF

abbrev pub bits_inv_nametable_y : ℕ
bits_inv_nametable_y = 0xF7FF

abbrev pub bits_inv_fine_y : ℕ
bits_inv_fine_y = 0x8FFF

-- A `vramAddr` is its number, a uint16.
abbrev pub get : ℕ → ℕ → ℕ → ℕ
get v mask shift = shr (bit_and v mask) shift

abbrev pub set : ℕ → ℕ → ℕ → ℕ → ℕ
set v mask shift value = bit_or (bit_and v mask) (u16 (shl value shift))

unfoldable pub coarse_x : ℕ → ℕ
coarse_x v = get v bits_coarse_x 0

unfoldable pub coarse_y : ℕ → ℕ
coarse_y v = get v bits_coarse_y 5

unfoldable pub nametable : ℕ → ℕ
nametable v = get v bits_nametable 10

unfoldable pub nametable_x : ℕ → ℕ
nametable_x v = get v bits_nametable_x 10

unfoldable pub nametable_y : ℕ → ℕ
nametable_y v = get v bits_nametable_y 11

unfoldable pub fine_y : ℕ → ℕ
fine_y v = get v bits_fine_y 12

unfoldable pub set_coarse_x : ℕ → ℕ → ℕ
set_coarse_x v x = set v bits_inv_coarse_x 0 x

unfoldable pub set_coarse_y : ℕ → ℕ → ℕ
set_coarse_y v y = set v bits_inv_coarse_y 5 y

unfoldable pub set_nametable : ℕ → ℕ → ℕ
set_nametable v n = set v bits_inv_nametable 10 n

unfoldable pub set_nametable_x : ℕ → ℕ → ℕ
set_nametable_x v n = set v bits_inv_nametable_x 10 n

unfoldable pub set_nametable_y : ℕ → ℕ → ℕ
set_nametable_y v n = set v bits_inv_nametable_y 11 n

unfoldable pub set_fine_y : ℕ → ℕ → ℕ
set_fine_y v y = set v bits_inv_fine_y 12 y

unfoldable pub flip_nametable_x : ℕ → ℕ
flip_nametable_x v = bit_xor v 0x0400

unfoldable pub flip_nametable_y : ℕ → ℕ
flip_nametable_y v = bit_xor v 0x0800

unfoldable pub increment_x : ℕ → ℕ
increment_x v = if coarse_x v == 31 then set_coarse_x (flip_nametable_x v) 0 else u16 (v + 1)

unfoldable pub increment_y : ℕ → ℕ
increment_y v =
    if ltb (fine_y v) 7
    then u16 (v + 0x1000)
    else let y = coarse_y v in
      let top = set_fine_y v 0 in
      if y == 29
      then set_coarse_y (flip_nametable_y top) 0
      else if y == 31
      then set_coarse_y top 0
      else set_coarse_y top (y + 1)
