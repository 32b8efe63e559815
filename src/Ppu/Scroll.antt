-- ===== src/Ppu/Scroll.antt =====
-- The scroll position of ppu/address.go in the components of the address.
use dendy.Prelude.{
  ℕ, zero, suc, ◌+◌, ◌*◌, ◌/◌, ◌%◌, ◌^◌, ◌≤◌, ◌<◌, ◌≡◌, refl, ap, ◌∙◌, arith, bit_and, bit_or,
  bit_xor, u16,
}
use dendy.Prelude.Bits.{and_digit, or_digit, xor_digit, and_31, and_7, and_1, and_63, or_disjoint}
use dendy.Ppu.Address

and_even : (v m : ℕ) → bit_and v (2 * m) ≡ bit_and (v / 2) m * 2
and_even v m =
    omega (arith, and_digit v (2 * m), ap (bit_and (v / 2)) {x = 2 * m / 2} {y = m} (omega arith))

and_odd : (v m : ℕ) → bit_and v (2 * m + 1) ≡ bit_and (v / 2) m * 2 + v % 2
and_odd v m = omega (
  arith,
  and_digit v (2 * m + 1),
  ap (bit_and (v / 2)) {x = (2 * m + 1) / 2} {y = m} (omega arith),
)

or_even : (v m : ℕ) → bit_or v (2 * m) ≡ bit_or (v / 2) m * 2 + v % 2
or_even v m =
    omega (arith, or_digit v (2 * m), ap (bit_or (v / 2)) {x = 2 * m / 2} {y = m} (omega arith))

xor_even : (v m : ℕ) → bit_xor v (2 * m) ≡ bit_xor (v / 2) m * 2 + v % 2
xor_even v m =
    omega (arith, xor_digit v (2 * m), ap (bit_xor (v / 2)) {x = 2 * m / 2} {y = m} (omega arith))

xor_0_below : (n v : ℕ) → v ≤ n → bit_xor v 0 ≡ v
xor_0_below zero zero h = refl
xor_0_below zero (suc v) h = absurd (omega arith)
xor_0_below (suc n) v h = omega (arith, xor_digit v 0, xor_0_below n (v / 2) (omega arith))

xor_1 : (v : ℕ) → bit_xor v 1 ≡ v / 2 * 2 + (v % 2 + 1) % 2
xor_1 v = omega (arith, xor_digit v 1, xor_0_below v (v / 2) (omega arith))

pub coarse_x_lem : (v : ℕ) → Address.coarse_x v ≡ v % 32
unfolding Address.coarse_x
coarse_x_lem v = omega (arith, and_31 v)

mask_coarse_y : (v : ℕ) → bit_and v 0x3E0 ≡ v / 32 % 32 * 32
mask_coarse_y v = omega (
  arith,
  and_even v 0x1f0,
  and_even (v / 2) 0xf8,
  and_even (v / 2 / 2) 0x7c,
  and_even (v / 2 / 2 / 2) 0x3e,
  and_even (v / 2 / 2 / 2 / 2) 0x1f,
  and_31 (v / 2 / 2 / 2 / 2 / 2),
)

mask_fine_y : (v : ℕ) → bit_and v 0x7000 ≡ v / 4096 % 8 * 4096
mask_fine_y v = omega (
  arith,
  and_even v 0x3800,
  and_even (v / 2) 0x1c00,
  and_even (v / 2 / 2) 0xe00,
  and_even (v / 2 / 2 / 2) 0x700,
  and_even (v / 2 / 2 / 2 / 2) 0x380,
  and_even (v / 2 / 2 / 2 / 2 / 2) 0x1c0,
  and_even (v / 2 / 2 / 2 / 2 / 2 / 2) 0xe0,
  and_even (v / 2 / 2 / 2 / 2 / 2 / 2 / 2) 0x70,
  and_even (v / 2 / 2 / 2 / 2 / 2 / 2 / 2 / 2) 0x38,
  and_even (v / 2 / 2 / 2 / 2 / 2 / 2 / 2 / 2 / 2) 0x1c,
  and_even (v / 2 / 2 / 2 / 2 / 2 / 2 / 2 / 2 / 2 / 2) 0xe,
  and_even (v / 2 / 2 / 2 / 2 / 2 / 2 / 2 / 2 / 2 / 2 / 2) 0x7,
  and_7 (v / 2 / 2 / 2 / 2 / 2 / 2 / 2 / 2 / 2 / 2 / 2 / 2),
)

keep_coarse_x : (v : ℕ) → bit_and v 0xFFE0 ≡ v / 32 % 2048 * 32
keep_coarse_x v = omega (
  arith,
  and_even v 0x7ff0,
  and_even (v / 2) 0x3ff8,
  and_even (v / 2 / 2) 0x1ffc,
  and_even (v / 2 / 2 / 2) 0xffe,
  and_even (v / 2 / 2 / 2 / 2) 0x7ff,
  and_odd (v / 2 / 2 / 2 / 2 / 2) 0x3ff,
  and_odd (v / 2 / 2 / 2 / 2 / 2 / 2) 0x1ff,
  and_odd (v / 2 / 2 / 2 / 2 / 2 / 2 / 2) 0xff,
  and_odd (v / 2 / 2 / 2 / 2 / 2 / 2 / 2 / 2) 0x7f,
  and_odd (v / 2 / 2 / 2 / 2 / 2 / 2 / 2 / 2 / 2) 0x3f,
  and_63 (v / 2 / 2 / 2 / 2 / 2 / 2 / 2 / 2 / 2 / 2),
)

keep_coarse_y : (v : ℕ) → bit_and v 0xFC1F ≡ v / 1024 % 64 * 1024 + v % 32
keep_coarse_y v = omega (
  arith,
  and_odd v 0x7e0f,
  and_odd (v / 2) 0x3f07,
  and_odd (v / 2 / 2) 0x1f83,
  and_odd (v / 2 / 2 / 2) 0xfc1,
  and_odd (v / 2 / 2 / 2 / 2) 0x7e0,
  and_even (v / 2 / 2 / 2 / 2 / 2) 0x3f0,
  and_even (v / 2 / 2 / 2 / 2 / 2 / 2) 0x1f8,
  and_even (v / 2 / 2 / 2 / 2 / 2 / 2 / 2) 0xfc,
  and_even (v / 2 / 2 / 2 / 2 / 2 / 2 / 2 / 2) 0x7e,
  and_even (v / 2 / 2 / 2 / 2 / 2 / 2 / 2 / 2 / 2) 0x3f,
  and_63 (v / 2 / 2 / 2 / 2 / 2 / 2 / 2 / 2 / 2 / 2),
)

keep_fine_y : (v : ℕ) → bit_and v 0x8FFF ≡ v / 32768 % 2 * 32768 + v % 4096
keep_fine_y v = omega (
  arith,
  and_odd v 0x47ff,
  and_odd (v / 2) 0x23ff,
  and_odd (v / 2 / 2) 0x11ff,
  and_odd (v / 2 / 2 / 2) 0x8ff,
  and_odd (v / 2 / 2 / 2 / 2) 0x47f,
  and_odd (v / 2 / 2 / 2 / 2 / 2) 0x23f,
  and_odd (v / 2 / 2 / 2 / 2 / 2 / 2) 0x11f,
  and_odd (v / 2 / 2 / 2 / 2 / 2 / 2 / 2) 0x8f,
  and_odd (v / 2 / 2 / 2 / 2 / 2 / 2 / 2 / 2) 0x47,
  and_odd (v / 2 / 2 / 2 / 2 / 2 / 2 / 2 / 2 / 2) 0x23,
  and_odd (v / 2 / 2 / 2 / 2 / 2 / 2 / 2 / 2 / 2 / 2) 0x11,
  and_odd (v / 2 / 2 / 2 / 2 / 2 / 2 / 2 / 2 / 2 / 2 / 2) 0x8,
  and_even (v / 2 / 2 / 2 / 2 / 2 / 2 / 2 / 2 / 2 / 2 / 2 / 2) 0x4,
  and_even (v / 2 / 2 / 2 / 2 / 2 / 2 / 2 / 2 / 2 / 2 / 2 / 2 / 2) 0x2,
  and_even (v / 2 / 2 / 2 / 2 / 2 / 2 / 2 / 2 / 2 / 2 / 2 / 2 / 2 / 2) 0x1,
  and_1 (v / 2 / 2 / 2 / 2 / 2 / 2 / 2 / 2 / 2 / 2 / 2 / 2 / 2 / 2 / 2),
)

mask_nametable_x : (v : ℕ) → bit_and v 0x400 ≡ v / 1024 % 2 * 1024
mask_nametable_x v = omega (
  arith,
  and_even v 0x200,
  and_even (v / 2) 0x100,
  and_even (v / 2 / 2) 0x80,
  and_even (v / 2 / 2 / 2) 0x40,
  and_even (v / 2 / 2 / 2 / 2) 0x20,
  and_even (v / 2 / 2 / 2 / 2 / 2) 0x10,
  and_even (v / 2 / 2 / 2 / 2 / 2 / 2) 0x8,
  and_even (v / 2 / 2 / 2 / 2 / 2 / 2 / 2) 0x4,
  and_even (v / 2 / 2 / 2 / 2 / 2 / 2 / 2 / 2) 0x2,
  and_even (v / 2 / 2 / 2 / 2 / 2 / 2 / 2 / 2 / 2) 0x1,
  and_1 (v / 2 / 2 / 2 / 2 / 2 / 2 / 2 / 2 / 2 / 2),
)

mask_nametable_y : (v : ℕ) → bit_and v 0x800 ≡ v / 2048 % 2 * 2048
mask_nametable_y v = omega (
  arith,
  and_even v 0x400,
  and_even (v / 2) 0x200,
  and_even (v / 2 / 2) 0x100,
  and_even (v / 2 / 2 / 2) 0x80,
  and_even (v / 2 / 2 / 2 / 2) 0x40,
  and_even (v / 2 / 2 / 2 / 2 / 2) 0x20,
  and_even (v / 2 / 2 / 2 / 2 / 2 / 2) 0x10,
  and_even (v / 2 / 2 / 2 / 2 / 2 / 2 / 2) 0x8,
  and_even (v / 2 / 2 / 2 / 2 / 2 / 2 / 2 / 2) 0x4,
  and_even (v / 2 / 2 / 2 / 2 / 2 / 2 / 2 / 2 / 2) 0x2,
  and_even (v / 2 / 2 / 2 / 2 / 2 / 2 / 2 / 2 / 2 / 2) 0x1,
  and_1 (v / 2 / 2 / 2 / 2 / 2 / 2 / 2 / 2 / 2 / 2 / 2),
)

pub flip_x : (v : ℕ) → bit_xor v 0x400 ≡ v / 2048 * 2048 + (v / 1024 % 2 + 1) % 2 * 1024 + v % 1024
flip_x v = omega (
  arith,
  xor_even v 0x200,
  xor_even (v / 2) 0x100,
  xor_even (v / 2 / 2) 0x80,
  xor_even (v / 2 / 2 / 2) 0x40,
  xor_even (v / 2 / 2 / 2 / 2) 0x20,
  xor_even (v / 2 / 2 / 2 / 2 / 2) 0x10,
  xor_even (v / 2 / 2 / 2 / 2 / 2 / 2) 0x8,
  xor_even (v / 2 / 2 / 2 / 2 / 2 / 2 / 2) 0x4,
  xor_even (v / 2 / 2 / 2 / 2 / 2 / 2 / 2 / 2) 0x2,
  xor_even (v / 2 / 2 / 2 / 2 / 2 / 2 / 2 / 2 / 2) 0x1,
  xor_1 (v / 2 / 2 / 2 / 2 / 2 / 2 / 2 / 2 / 2 / 2),
)

pub flip_y : (v : ℕ) → bit_xor v 0x800 ≡ v / 4096 * 4096 + (v / 2048 % 2 + 1) % 2 * 2048 + v % 2048
flip_y v = omega (
  arith,
  xor_even v 0x400,
  xor_even (v / 2) 0x200,
  xor_even (v / 2 / 2) 0x100,
  xor_even (v / 2 / 2 / 2) 0x80,
  xor_even (v / 2 / 2 / 2 / 2) 0x40,
  xor_even (v / 2 / 2 / 2 / 2 / 2) 0x20,
  xor_even (v / 2 / 2 / 2 / 2 / 2 / 2) 0x10,
  xor_even (v / 2 / 2 / 2 / 2 / 2 / 2 / 2) 0x8,
  xor_even (v / 2 / 2 / 2 / 2 / 2 / 2 / 2 / 2) 0x4,
  xor_even (v / 2 / 2 / 2 / 2 / 2 / 2 / 2 / 2 / 2) 0x2,
  xor_even (v / 2 / 2 / 2 / 2 / 2 / 2 / 2 / 2 / 2 / 2) 0x1,
  xor_1 (v / 2 / 2 / 2 / 2 / 2 / 2 / 2 / 2 / 2 / 2 / 2),
)

or_5 :
    (x y : ℕ)
    → bit_or x (2 * (2 * (2 * (2 * (2 * y))))) ≡ bit_or (x / 2 / 2 / 2 / 2 / 2) y * 32 + x % 32
or_5 x y = omega (
  arith,
  or_even x (2 * (2 * (2 * (2 * y)))),
  or_even (x / 2) (2 * (2 * (2 * y))),
  or_even (x / 2 / 2) (2 * (2 * y)),
  or_even (x / 2 / 2 / 2) (2 * y),
  or_even (x / 2 / 2 / 2 / 2) y,
)

or_0 : (x : ℕ) → bit_or x 0 ≡ x
or_0 x =
    ap (λ t. bit_or t 0) {x = x} {y = x * 2 ^ 0} (omega arith)
    ∙ or_disjoint 0 x 0 (omega arith)
    ∙ omega arith

pub coarse_y_lem : (v : ℕ) → Address.coarse_y v ≡ v / 32 % 32
unfolding Address.coarse_y
coarse_y_lem v = omega (arith, mask_coarse_y v)

pub fine_y_lem : (v : ℕ) → Address.fine_y v ≡ v / 4096 % 8
unfolding Address.fine_y
fine_y_lem v = omega (arith, mask_fine_y v)

pub nametable_x_lem : (v : ℕ) → Address.nametable_x v ≡ v / 1024 % 2
unfolding Address.nametable_x
nametable_x_lem v = omega (arith, mask_nametable_x v)

pub nametable_y_lem : (v : ℕ) → Address.nametable_y v ≡ v / 2048 % 2
unfolding Address.nametable_y
nametable_y_lem v = omega (arith, mask_nametable_y v)

pub set_coarse_x_lem : (v : ℕ) → v < 65536 → Address.set_coarse_x v 0 ≡ v / 32 * 32
unfolding Address.set_coarse_x
set_coarse_x_lem v h = or_0 (bit_and v 0xFFE0) ∙ omega (arith, keep_coarse_x v)

pub set_fine_y_lem : (v : ℕ) → v < 32768 → Address.set_fine_y v 0 ≡ v % 4096
unfolding Address.set_fine_y
set_fine_y_lem v h = or_0 (bit_and v 0x8FFF) ∙ omega (arith, keep_fine_y v)

pub set_coarse_y_lem :
    (v y : ℕ) → v < 65536 → y < 32 → Address.set_coarse_y v y ≡ v / 1024 * 1024 + y * 32 + v % 32
unfolding Address.set_coarse_y
set_coarse_y_lem v y h hy =
    let kept = bit_and v 0xFC1F in
    let parts = keep_coarse_y v in
    ap (bit_or kept) {x = u16 (y * 2 ^ 5)} {y = 2 * (2 * (2 * (2 * (2 * y))))} (omega arith)
    ∙ or_5 kept y
    ∙ ap (λ t. t * 32 + kept % 32)
        (ap (λ t. bit_or t y) {x = kept / 2 / 2 / 2 / 2 / 2} {y = v / 1024 * 2 ^ 5}
            (omega (arith, parts))
          ∙ or_disjoint 5 (v / 1024) y (omega arith))
    ∙ omega (arith, parts)
