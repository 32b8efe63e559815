-- ===== src/Prelude/Words.antt =====
-- Go's fixed-width unsigned integers as native numbers, with the wrap written out, and Go's `int`
-- where a negative value can be passed.
use Prim.Native.Nat.{ℕ, ◌-◌, ◌*◌, ◌/◌, ◌%◌, ◌^◌}
use dendy.Prelude.Tests.{leb, if◌then◌else◌}

abbrev pub u8 : ℕ → ℕ
u8 n = n % 256

abbrev pub u16 : ℕ → ℕ
u16 n = n % 65536

abbrev pub u32 : ℕ → ℕ
u32 n = n % 4294967296

abbrev pub u64 : ℕ → ℕ
u64 n = n % 18446744073709551616

-- `x << k` before it is cut to its width, and `x >> k`.
abbrev pub shl : ℕ → ℕ → ℕ
shl x k = x * 2 ^ k

abbrev pub shr : ℕ → ℕ → ℕ
shr x k = x / 2 ^ k

-- `negsuc n` is -(n + 1).
pub data ℤ : Type 0 where
  pos : ℕ → ℤ
  negsuc : ℕ → ℤ

-- a - b, as an integer.
abbrev pub sub_ℕ : ℕ → ℕ → ℤ
sub_ℕ a b = if leb b a then pos (a - b) else negsuc (b - a - 1)
