-- ===== src/Cpu/Arith.antt =====
-- The arithmetic of `adc`, `sbc` and the comparisons, against the integers.
use dendy.Prelude.{
  ℕ, ◌+◌, ◌-◌, ◌*◌, ◌^◌, ◌≤◌, ◌<◌, ◌≡◌, refl, ◌∙◌, ◌⊎◌, ◌↔◌, arith, bit_and, bit_xor, u8, u16, Bool,
  true, not, ◌&&◌, ◌==◌, ltb, if◌then◌else◌,
}
use dendy.Prelude.Bits.{xor_bit7}
use dendy.Cpu.State.{
  Cpu, get_flag, set_flag, set_zn, carried, flag_carry, flag_zero, flag_overflow, flag_negative,
}
use dendy.Cpu.Flags.{
  get_flag-set_flag, get_flag-set_zn, p-set_flag-lt, set_flag-SameRegisters, set_zn-SameRegisters,
}
use dendy.Cpu.Official.{add_carry, sub_carry, compare_with}

-- The shared tail of `adc` and `sbc`: carry and overflow flags, then the accumulator.
abbrev finish : Cpu → ℕ → Bool → Bool → Cpu
finish cpu r carry overflow =
    set_zn (record (set_flag (set_flag cpu flag_carry carry) flag_overflow overflow) { a = u8 r })
      (u8 r)

-- A flag depends on the status register alone.
pub get_flag_of_p : (c d : Cpu) (flag : ℕ) → c.p ≡ d.p → get_flag c flag ≡ get_flag d flag
unfolding get_flag
get_flag_of_p c d flag e = rw e

finish_a : (cpu : Cpu) (r : ℕ) (c v : Bool) → (finish cpu r c v).a ≡ u8 r
finish_a cpu r c v = ground (
  arith,
  set_zn-SameRegisters (record (set_flag (set_flag cpu flag_carry c) flag_overflow v) { a = u8 r })
      (u8 r),
)

finish_flag :
    (cpu : Cpu) (r j : ℕ) (c v : Bool)
    → cpu.p < 256
    → j < 8
    → get_flag (finish cpu r c v) (2 ^ j) ≡ (
        if j == 1
        then u8 r == 0
        else if j == 7
        then not (ltb (u8 r) 128)
        else if j == 6
        then v
        else if j == 0
        then c
        else get_flag cpu (2 ^ j))
finish_flag cpu r j c v hp hj =
    let p1 = p-set_flag-lt cpu flag_carry c hp (omega arith) in
    let p2 = p-set_flag-lt (set_flag cpu flag_carry c) flag_overflow v p1 (omega arith) in
    ground (
      arith,
      get_flag-set_zn (record (set_flag (set_flag cpu flag_carry c) flag_overflow v) { a = u8 r })
          (u8 r) j p2 (omega arith) hj,
      get_flag-set_flag (set_flag cpu flag_carry c) 6 j v p1 (omega arith) hj,
      get_flag-set_flag cpu 0 j c hp (omega arith) hj,
      get_flag_of_p (record (set_flag (set_flag cpu flag_carry c) flag_overflow v) { a = u8 r })
          (set_flag (set_flag cpu flag_carry c) flag_overflow v) (2 ^ j) refl,
    )

-- A byte read as a signed number, plus 256.
abbrev pub biased : ℕ → ℕ
biased b = if ltb b 128 then b + 256 else b

-- The signed sum of two bytes and a carry is outside -128 … 127.
abbrev pub SumOverflows : ℕ → ℕ → ℕ → Type 0
SumOverflows a b c = (biased a + biased b + c < 384) ⊎ (639 < biased a + biased b + c)

-- The signed difference `a - b - borrow` is outside -128 … 127.
abbrev pub DifferenceOverflows : ℕ → ℕ → ℕ → Type 0
DifferenceOverflows a b borrow =
    (biased a + 128 < biased b + borrow) ⊎ (biased b + borrow + 127 < biased a)

carried_of_flag :
    (c : Cpu) (v : Bool) → get_flag c flag_carry ≡ v → carried c ≡ (if v then 1 else 0)
unfolding carried
carried_of_flag c v e = rw e

pub carried-le : (c : Cpu) → carried c ≤ 1
unfolding carried
carried-le c = ground arith

-- What `finish` leaves, in numbers.
finish_lem :
    (cpu : Cpu) (r : ℕ) (c v : Bool)
    → cpu.p < 256
    → let out = finish cpu r c v in
      (out.a ≡ u8 r)
      × (carried out ≡ (if c then 1 else 0))
      × ((get_flag out flag_zero ≡ true) ↔ (out.a ≡ 0))
      × ((get_flag out flag_negative ≡ true) ↔ (128 ≤ out.a))
      × (get_flag out flag_overflow ≡ v)
finish_lem cpu r c v hp =
    let carry : get_flag (finish cpu r c v) flag_carry ≡ c =
      finish_flag cpu r 0 c v hp (omega arith) in
    let zero_is : get_flag (finish cpu r c v) flag_zero ≡ (u8 r == 0) =
      finish_flag cpu r 1 c v hp (omega arith) in
    let negative_is : get_flag (finish cpu r c v) flag_negative ≡ not (ltb (u8 r) 128) =
      finish_flag cpu r 7 c v hp (omega arith) in
    (
      finish_a cpu r c v,
      carried_of_flag (finish cpu r c v) c carry,
      rw zero_is (ground (arith, finish_a cpu r c v)),
      rw negative_is (ground (arith, finish_a cpu r c v)),
      finish_flag cpu r 6 c v hp (omega arith),
    )

-- The carry and the overflow of `adc`, before they become flags.
abbrev add_word : Cpu → ℕ → ℕ
add_word cpu b = u16 (cpu.a + b + carried cpu)

abbrev add_overflow : Cpu → ℕ → Bool
add_overflow cpu b =
    (bit_and (bit_xor cpu.a b) 0x80 == 0)
    && not (bit_and (bit_xor cpu.a (add_word cpu b)) 0x80 == 0)

add_carry-finish :
    (cpu : Cpu) (b : ℕ)
    → add_carry cpu b ≡ finish cpu (add_word cpu b) (ltb 0xFF (add_word cpu b)) (add_overflow cpu b)
unfolding add_carry
add_carry-finish cpu b = refl

add_overflow_iff :
    (cpu : Cpu) (b : ℕ)
    → cpu.a < 256
    → b < 256
    → (add_overflow cpu b ≡ true) ↔ SumOverflows cpu.a b (carried cpu)
add_overflow_iff cpu b ha hb =
    ground (arith, carried-le cpu, xor_bit7 cpu.a b, xor_bit7 cpu.a (add_word cpu b))

-- For byte registers and a byte operand: after an addition accumulator and carry flag together
-- are the sum of the operands and the carry; zero and negative flags describe the accumulator;
-- the overflow flag is set exactly when the signed sum leaves the range of a byte.
pub add_carry_lem :
    (cpu : Cpu) (b : ℕ)
    → cpu.a < 256
    → cpu.p < 256
    → b < 256
    → let out = add_carry cpu b in
      (out.a + 256 * carried out ≡ cpu.a + b + carried cpu)
      × ((get_flag out flag_zero ≡ true) ↔ (out.a ≡ 0))
      × ((get_flag out flag_negative ≡ true) ↔ (128 ≤ out.a))
      × ((get_flag out flag_overflow ≡ true) ↔ SumOverflows cpu.a b (carried cpu))
add_carry_lem cpu b ha hp hb =
    let r = add_word cpu b in
    let (acc, carry, zero_is, negative_is, overflow_is) =
      finish_lem cpu r (ltb 0xFF r) (add_overflow cpu b) hp in
    rw add_carry-finish (
      ground (arith, carried-le cpu, acc, carry),
      zero_is,
      negative_is,
      rw overflow_is (add_overflow_iff cpu b ha hb),
    )

abbrev sub_word : Cpu → ℕ → ℕ
sub_word cpu b = u16 (u16 (cpu.a + 65536 - b) + 65536 - (1 - carried cpu))

abbrev sub_overflow : Cpu → ℕ → Bool
sub_overflow cpu b =
    not (bit_and (bit_xor cpu.a b) 0x80 == 0)
    && not (bit_and (bit_xor cpu.a (sub_word cpu b)) 0x80 == 0)

sub_carry-finish :
    (cpu : Cpu) (b : ℕ)
    → sub_carry cpu b
      ≡ finish cpu (sub_word cpu b) (ltb (sub_word cpu b) 0x100) (sub_overflow cpu b)
unfolding sub_carry
sub_carry-finish cpu b = refl

sub_overflow_iff :
    (cpu : Cpu) (b : ℕ)
    → cpu.a < 256
    → b < 256
    → (sub_overflow cpu b ≡ true) ↔ DifferenceOverflows cpu.a b (1 - carried cpu)
sub_overflow_iff cpu b ha hb =
    ground (arith, carried-le cpu, xor_bit7 cpu.a b, xor_bit7 cpu.a (sub_word cpu b))

-- For byte registers and a byte operand: after a subtraction the accumulator is the difference
-- less the borrow, modulo 256, and the carry flag is clear exactly when the difference was
-- negative; zero and negative flags describe the accumulator; the overflow flag is set exactly
-- when the signed difference leaves the range of a byte.
pub sub_carry_lem :
    (cpu : Cpu) (b : ℕ)
    → cpu.a < 256
    → cpu.p < 256
    → b < 256
    → let out = sub_carry cpu b in
      (out.a + b + (1 - carried cpu) ≡ cpu.a + 256 * (1 - carried out))
      × ((get_flag out flag_zero ≡ true) ↔ (out.a ≡ 0))
      × ((get_flag out flag_negative ≡ true) ↔ (128 ≤ out.a))
      × ((get_flag out flag_overflow ≡ true) ↔ DifferenceOverflows cpu.a b (1 - carried cpu))
sub_carry_lem cpu b ha hp hb =
    let r = sub_word cpu b in
    let (acc, carry, zero_is, negative_is, overflow_is) =
      finish_lem cpu r (ltb r 0x100) (sub_overflow cpu b) hp in
    rw sub_carry-finish (
      ground (arith, carried-le cpu, acc, carry),
      zero_is,
      negative_is,
      rw overflow_is (sub_overflow_iff cpu b ha hb),
    )

-- For byte registers and a byte operand: a comparison sets carry exactly when the register is at
-- least the operand and zero exactly when they are equal; overflow flag, accumulator and program
-- counter stay.
pub compare_with_lem :
    (cpu : Cpu) (r b : ℕ)
    → cpu.p < 256
    → r < 256
    → b < 256
    → let out = compare_with cpu r b in
      ((get_flag out flag_carry ≡ true) ↔ (b ≤ r))
      × ((get_flag out flag_zero ≡ true) ↔ (r ≡ b))
      × (get_flag out flag_overflow ≡ get_flag cpu flag_overflow)
      × (out.a ≡ cpu.a)
      × (out.pc ≡ cpu.pc)
unfolding compare_with
compare_with_lem cpu r b hp hr hb =
    let d = u16 (r + 65536 - b) in
    let cpu1 = set_flag cpu flag_carry (ltb d 0x100) in
    let p1 = p-set_flag-lt cpu flag_carry (ltb d 0x100) hp (omega arith) in
    let small : u8 d < 256 = omega arith in
    let carry : get_flag (set_zn cpu1 (u8 d)) flag_carry ≡ ltb d 0x100 =
      get_flag-set_zn cpu1 (u8 d) 0 p1 small (omega arith)
      ∙ get_flag-set_flag cpu 0 0 (ltb d 0x100) hp (omega arith) (omega arith) in
    let zero_is : get_flag (set_zn cpu1 (u8 d)) flag_zero ≡ (u8 d == 0) =
      get_flag-set_zn cpu1 (u8 d) 1 p1 small (omega arith) in
    let overflow : get_flag (set_zn cpu1 (u8 d)) flag_overflow ≡ get_flag cpu flag_overflow =
      get_flag-set_zn cpu1 (u8 d) 6 p1 small (omega arith)
      ∙ get_flag-set_flag cpu 0 6 (ltb d 0x100) hp (omega arith) (omega arith) in
    (
      rw carry (ground arith),
      rw zero_is (ground arith),
      overflow,
      omega (
        arith,
        set_zn-SameRegisters cpu1 (u8 d),
        set_flag-SameRegisters cpu flag_carry (ltb d 0x100),
      ),
      omega (
        arith,
        set_zn-SameRegisters cpu1 (u8 d),
        set_flag-SameRegisters cpu flag_carry (ltb d 0x100),
      ),
    )
