-- ===== src/Prelude/Bits.antt =====
-- Laws of `&`, `|` and `^` at variables: one equation for the lowest digit, from which the facts
-- about single bits and bounds follow.
use Prim.Native.Nat.{ℕ, zero, suc, ◌+◌, ◌*◌, ◌/◌, ◌%◌, ◌^◌, ◌≤◌, ◌<◌, min, max}
use Prim.Native.Nat.{digits, bitwise, bit_and, bit_or, bit_xor}
use Prim.Native.Nat.{bit_and-bitwise, bit_or-bitwise, bit_xor-bitwise, differ}
use mathlib.Core.Path.{◌≡◌, refl, ap}
use mathlib.Core.Bool.{Bool, true, ◌&&◌}
use native.Mathlib.Omega.{arith}
use native.Mathlib.Nat.{pow-suc}
use dendy.Prelude.Tests.{◌==◌, ==_iff}

module _ (rest : ℕ → ℕ) (op : ℕ → ℕ → ℕ) where
  -- Any two counts of digits that reach the first number give one value.
  count_irrelevant : (a n m b : ℕ) → a ≤ n → a ≤ m → digits rest op n a b ≡ digits rest op m a b
  count_irrelevant a zero zero b p q = refl
  count_irrelevant zero zero (suc m) b p q = refl
  count_irrelevant zero (suc n) zero b p q = refl
  count_irrelevant zero (suc n) (suc m) b p q = refl
  count_irrelevant (suc a) zero m b p q = absurd (omega arith)
  count_irrelevant (suc a) (suc n) zero b p q = absurd (omega arith)
  count_irrelevant (suc a) (suc n) (suc m) b p q =
      ap (λ t. t * 2 + op (suc a % 2) (b % 2))
        (count_irrelevant (suc a / 2) n m (b / 2) (omega arith) (omega arith))

  lowest_digit :
      (a b : ℕ)
      → bitwise rest op (suc a) b ≡ bitwise rest op (suc a / 2) (b / 2) * 2 + op (suc a % 2) (b % 2)
  lowest_digit a b =
      ap (λ t. t * 2 + op (suc a % 2) (b % 2))
        (count_irrelevant (suc a / 2) a (suc a / 2) (b / 2) (omega arith) (omega arith))

pub and_digit : (a b : ℕ) → bit_and a b ≡ bit_and (a / 2) (b / 2) * 2 + min (a % 2) (b % 2)
and_digit zero b = simp bit_and-bitwise (omega arith)
and_digit (suc a) b = simp bit_and-bitwise (lowest_digit (λ y. 0) min a b)

pub or_digit : (a b : ℕ) → bit_or a b ≡ bit_or (a / 2) (b / 2) * 2 + max (a % 2) (b % 2)
or_digit zero b = simp bit_or-bitwise (omega arith)
or_digit (suc a) b = simp bit_or-bitwise (lowest_digit (λ y. y) max a b)

digit_differ : (a b : ℕ) → a < 2 → b < 2 → differ a b ≡ (a + b) % 2
digit_differ zero b p q = omega arith
digit_differ (suc zero) zero p q = refl
digit_differ (suc zero) (suc zero) p q = refl
digit_differ (suc zero) (suc (suc b)) p q = absurd (omega arith)
digit_differ (suc (suc a)) b p q = absurd (omega arith)

xor_differ : (a b : ℕ) → bit_xor a b ≡ bit_xor (a / 2) (b / 2) * 2 + differ (a % 2) (b % 2)
xor_differ zero b =
    simp bit_xor-bitwise (omega (arith, digit_differ (0 % 2) (b % 2) (omega arith) (omega arith)))
xor_differ (suc a) b = simp bit_xor-bitwise (lowest_digit (λ y. y) differ a b)

pub xor_digit : (a b : ℕ) → bit_xor a b ≡ bit_xor (a / 2) (b / 2) * 2 + (a % 2 + b % 2) % 2
xor_digit a b =
    omega (arith, xor_differ a b, digit_differ (a % 2) (b % 2) (omega arith) (omega arith))

-- Bounds. `|` and `^` of numbers below 2 ^ k stay below; `&` is at most its second argument.
pub or_lt : (k a b : ℕ) → a < 2 ^ k → b < 2 ^ k → bit_or a b < 2 ^ k
or_lt zero zero zero p q = omega arith
or_lt zero (suc a) b p q = absurd (omega arith)
or_lt zero zero (suc b) p q = absurd (omega arith)
or_lt (suc k) a b p q =
    omega (arith, pow-suc 2 k, or_digit a b, or_lt k (a / 2) (b / 2) half_a half_b)
  where
    half_a : a / 2 < 2 ^ k
    half_a = omega (arith, pow-suc 2 k)

    half_b : b / 2 < 2 ^ k
    half_b = omega (arith, pow-suc 2 k)

pub xor_lt : (k a b : ℕ) → a < 2 ^ k → b < 2 ^ k → bit_xor a b < 2 ^ k
xor_lt zero zero zero p q = omega arith
xor_lt zero (suc a) b p q = absurd (omega arith)
xor_lt zero zero (suc b) p q = absurd (omega arith)
xor_lt (suc k) a b p q =
    omega (arith, pow-suc 2 k, xor_digit a b, xor_lt k (a / 2) (b / 2) half_a half_b)
  where
    half_a : a / 2 < 2 ^ k
    half_a = omega (arith, pow-suc 2 k)

    half_b : b / 2 < 2 ^ k
    half_b = omega (arith, pow-suc 2 k)

and_le_count : (n a b : ℕ) → a ≤ n → (bit_and a b ≤ b) × (bit_and a b ≤ a)
and_le_count n zero b p = (simp bit_and-bitwise (omega arith), simp bit_and-bitwise (omega arith))
and_le_count zero (suc a) b p = absurd (omega arith)
and_le_count (suc n) (suc a) b p =
    let half = and_le_count n (suc a / 2) (b / 2) (omega arith) in
    (omega (arith, and_digit (suc a) b, half.0), omega (arith, and_digit (suc a) b, half.1))

pub and_le_right : (a b : ℕ) → bit_and a b ≤ b
and_le_right a b = (and_le_count a a b (omega arith)).0

pub and_le_left : (a b : ℕ) → bit_and a b ≤ a
and_le_left a b = (and_le_count a a b (omega arith)).1

-- Masks of low bits.
pub and_0 : (x : ℕ) → bit_and x 0 ≡ 0
and_0 x = omega (arith, and_le_right x 0)

pub and_1 : (x : ℕ) → bit_and x 1 ≡ x % 2
and_1 x = omega (arith, and_digit x 1, and_0 (x / 2))

pub and_3 : (x : ℕ) → bit_and x 3 ≡ x % 4
and_3 x = omega (arith, and_digit x 3, and_1 (x / 2))

pub and_7 : (x : ℕ) → bit_and x 7 ≡ x % 8
and_7 x = omega (arith, and_digit x 7, and_3 (x / 2))

pub and_15 : (x : ℕ) → bit_and x 15 ≡ x % 16
and_15 x = omega (arith, and_digit x 15, and_7 (x / 2))

pub and_31 : (x : ℕ) → bit_and x 31 ≡ x % 32
and_31 x = omega (arith, and_digit x 31, and_15 (x / 2))

pub and_63 : (x : ℕ) → bit_and x 63 ≡ x % 64
and_63 x = omega (arith, and_digit x 63, and_31 (x / 2))

pub and_127 : (x : ℕ) → bit_and x 127 ≡ x % 128
and_127 x = omega (arith, and_digit x 127, and_63 (x / 2))

pub and_255 : (x : ℕ) → bit_and x 255 ≡ x % 256
and_255 x = omega (arith, and_digit x 255, and_127 (x / 2))

-- Single bits.
pub and_bit0 : (x : ℕ) → bit_and x 1 ≡ x % 2
and_bit0 x = and_1 x

pub and_bit1 : (x : ℕ) → bit_and x 2 ≡ x / 2 % 2 * 2
and_bit1 x = omega (arith, and_digit x 2, and_bit0 (x / 2))

pub and_bit2 : (x : ℕ) → bit_and x 4 ≡ x / 4 % 2 * 4
and_bit2 x = omega (arith, and_digit x 4, and_bit1 (x / 2))

pub and_bit3 : (x : ℕ) → bit_and x 8 ≡ x / 8 % 2 * 8
and_bit3 x = omega (arith, and_digit x 8, and_bit2 (x / 2))

pub and_bit4 : (x : ℕ) → bit_and x 16 ≡ x / 16 % 2 * 16
and_bit4 x = omega (arith, and_digit x 16, and_bit3 (x / 2))

pub and_bit5 : (x : ℕ) → bit_and x 32 ≡ x / 32 % 2 * 32
and_bit5 x = omega (arith, and_digit x 32, and_bit4 (x / 2))

pub and_bit6 : (x : ℕ) → bit_and x 64 ≡ x / 64 % 2 * 64
and_bit6 x = omega (arith, and_digit x 64, and_bit5 (x / 2))

pub and_bit7 : (x : ℕ) → bit_and x 128 ≡ x / 128 % 2 * 128
and_bit7 x = omega (arith, and_digit x 128, and_bit6 (x / 2))

-- Bit 7 of an exclusive or.
xor_half : (a b : ℕ) → bit_xor a b / 2 ≡ bit_xor (a / 2) (b / 2)
xor_half a b = omega (arith, xor_digit a b)

pub xor_bit7 : (a b : ℕ) → bit_and (bit_xor a b) 128 ≡ (a / 128 + b / 128) % 2 * 128
xor_bit7 a b = omega (
  arith,
  and_bit7 (bit_xor a b),
  xor_half a b,
  xor_half (a / 2) (b / 2),
  xor_half (a / 2 / 2) (b / 2 / 2),
  xor_half (a / 2 / 2 / 2) (b / 2 / 2 / 2),
  xor_half (a / 2 / 2 / 2 / 2) (b / 2 / 2 / 2 / 2),
  xor_half (a / 2 / 2 / 2 / 2 / 2) (b / 2 / 2 / 2 / 2 / 2),
  xor_half (a / 2 / 2 / 2 / 2 / 2 / 2) (b / 2 / 2 / 2 / 2 / 2 / 2),
  xor_digit (a / 2 / 2 / 2 / 2 / 2 / 2 / 2) (b / 2 / 2 / 2 / 2 / 2 / 2 / 2),
)

-- `|` of fields that do not overlap is their sum.
or_zero : (n a : ℕ) → a ≤ n → bit_or a 0 ≡ a
or_zero n zero h = refl
or_zero zero (suc a) h = absurd (omega arith)
or_zero (suc n) (suc a) h = omega (arith, or_digit (suc a) 0, or_zero n (suc a / 2) (omega arith))

pub or_disjoint : (k a b : ℕ) → b < 2 ^ k → bit_or (a * 2 ^ k) b ≡ a * 2 ^ k + b
or_disjoint zero a zero h = omega (arith, or_zero (a * 2 ^ zero) (a * 2 ^ zero) (omega arith))
or_disjoint zero a (suc b) h = absurd (omega arith)
or_disjoint (suc k) a b h =
    let twice : a * 2 ^ suc k ≡ 2 * (a * 2 ^ k) =
      omega (arith, ap (λ (t : ℕ). a * t) (pow-suc 2 k)) in
    let half : a * 2 ^ suc k / 2 ≡ a * 2 ^ k = omega (arith, twice) in
    omega (
      arith,
      twice,
      or_digit (a * 2 ^ suc k) b,
      ap (λ (t : ℕ). bit_or t (b / 2)) half,
      or_disjoint k a (b / 2) (omega (arith, pow-suc 2 k)),
    )

-- Checks of every value below a bound, by evaluation.
unfoldable pub all_below : ℕ → (ℕ → Bool) → Bool
all_below zero p = true
all_below (suc n) p = p n && all_below n p

pub all_below_sound : (n : ℕ) (p : ℕ → Bool) (x : ℕ) → all_below n p ≡ true → x < n → p x ≡ true
unfolding all_below
all_below_sound zero p x h below = absurd (omega arith)
all_below_sound (suc n) p x h below = ground (arith, all_below_sound n p x)

-- Two functions that agree on every value below the bound when evaluated.
pub table_eq :
    (n : ℕ) (f g : ℕ → ℕ) (x : ℕ) → all_below n (λ v. f v == g v) ≡ true → x < n → f x ≡ g x
table_eq n f g x h below = (==_iff (f x) (g x)).0 (all_below_sound n (λ v. f v == g v) x h below)

or_comm_below : (n a b : ℕ) → a ≤ n → b ≤ n → bit_or a b ≡ bit_or b a
or_comm_below zero zero zero p q = refl
or_comm_below zero (suc a) b p q = absurd (omega arith)
or_comm_below zero zero (suc b) p q = absurd (omega arith)
or_comm_below (suc n) a b p q =
    omega (
      arith,
      or_digit a b,
      or_digit b a,
      or_comm_below n (a / 2) (b / 2) (omega arith) (omega arith),
    )

pub or_comm : (a b : ℕ) → bit_or a b ≡ bit_or b a
or_comm a b = or_comm_below (a + b) a b (omega arith) (omega arith)
