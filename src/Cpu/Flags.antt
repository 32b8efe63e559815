-- ===== src/Cpu/Flags.antt =====
-- What setting a flag does to every flag and register.
use dendy.Prelude.{
  ℕ, ◌-◌, ◌^◌, ◌<◌, ◌≡◌, refl, arith, bit_and, bit_or, Bool, true, false, not, ◌==◌, ltb,
  if◌then◌else◌,
}
use dendy.Prelude.Bits.{all_below, all_below_sound, or_lt, and_le_left, and_bit7}
use dendy.Cpu.State.{Cpu, get_flag, set_flag, set_zn, flag_zero, flag_negative}

abbrev pub same : Bool → Bool → Bool
same true b = b
same false b = not b

pub same_eq : (a b : Bool) → same a b ≡ true → a ≡ b
same_eq true true h = refl
same_eq true false h = cc
same_eq false true h = cc
same_eq false false h = refl

abbrev pub is_set : ℕ → ℕ → Bool
is_set p j = not (bit_and p (2 ^ j) == 0)

-- Bit j of the flags after bit i was set, and after it was cleared.
abbrev set_entry : ℕ → ℕ → ℕ → Bool
set_entry i j p = same (is_set (bit_or p (2 ^ i)) j) (if i == j then true else is_set p j)

abbrev clear_entry : ℕ → ℕ → ℕ → Bool
clear_entry i j p =
    same (is_set (bit_and p (0xFF - 2 ^ i)) j) (if i == j then false else is_set p j)

set_table : all_below 8 (λ i. all_below 8 (λ j. all_below 256 (set_entry i j))) ≡ true
unfolding all_below
set_table = refl

clear_table : all_below 8 (λ i. all_below 8 (λ j. all_below 256 (clear_entry i j))) ≡ true
unfolding all_below
clear_table = refl

look_up :
    (entry : ℕ → ℕ → ℕ → Bool) (i j p : ℕ)
    → all_below 8 (λ i. all_below 8 (λ j. all_below 256 (entry i j))) ≡ true
    → i < 8
    → j < 8
    → p < 256
    → entry i j p ≡ true
look_up entry i j p table hi hj hp =
    all_below_sound 256 (entry i j) p
      (all_below_sound 8 (λ j. all_below 256 (entry i j)) j
        (all_below_sound 8 (λ i. all_below 8 (λ j. all_below 256 (entry i j))) i table hi) hj)
      hp

-- For a byte of flags: after setting or clearing flag i, flag i is the given value and every
-- other flag is as it was.
pub get_flag-set_flag :
    (cpu : Cpu) (i j : ℕ) (v : Bool)
    → cpu.p < 256
    → i < 8
    → j < 8
    → get_flag (set_flag cpu (2 ^ i) v) (2 ^ j) ≡ (if i == j then v else get_flag cpu (2 ^ j))
unfolding get_flag set_flag
get_flag-set_flag cpu i j true hp hi hj =
    same_eq _ _ (look_up set_entry i j cpu.p set_table hi hj hp)
get_flag-set_flag cpu i j false hp hi hj =
    same_eq _ _ (look_up clear_entry i j cpu.p clear_table hi hj hp)

pub p-set_flag-lt :
    (cpu : Cpu) (flag : ℕ) (v : Bool) → cpu.p < 256 → flag < 256 → (set_flag cpu flag v).p < 256
unfolding set_flag
p-set_flag-lt cpu flag true hp hf = or_lt 8 cpu.p flag hp hf
p-set_flag-lt cpu flag false hp hf = omega (arith, and_le_left cpu.p (0xFF - flag))

-- The registers that a flag leaves alone.
pub record SameRegisters (c d : Cpu) : Type 0 where
  pub a : d.a ≡ c.a
  pub x : d.x ≡ c.x
  pub y : d.y ≡ c.y
  pub sp : d.sp ≡ c.sp
  pub pc : d.pc ≡ c.pc
  pub cycles : d.cycles ≡ c.cycles
  pub halt : d.halt ≡ c.halt
  pub interrupt : d.interrupt ≡ c.interrupt

pub set_flag-SameRegisters :
    (cpu : Cpu) (flag : ℕ) (v : Bool) → SameRegisters cpu (set_flag cpu flag v)
unfolding set_flag
set_flag-SameRegisters cpu flag true = ground arith
set_flag-SameRegisters cpu flag false = ground arith

pub set_zn-SameRegisters : (cpu : Cpu) (v : ℕ) → SameRegisters cpu (set_zn cpu v)
unfolding set_zn
set_zn-SameRegisters cpu v = ground (
  arith,
  set_flag-SameRegisters cpu flag_zero (v == 0),
  set_flag-SameRegisters (set_flag cpu flag_zero (v == 0)) flag_negative
      (not (bit_and v 0x80 == 0)),
)

pub p-set_zn-lt : (cpu : Cpu) (v : ℕ) → cpu.p < 256 → (set_zn cpu v).p < 256
unfolding set_zn
p-set_zn-lt cpu v hp =
    p-set_flag-lt (set_flag cpu flag_zero (v == 0)) flag_negative (not (bit_and v 0x80 == 0))
      (p-set_flag-lt cpu flag_zero (v == 0) hp (omega arith)) (omega arith)

-- For a byte of flags and a byte value: after `setZN` the zero flag tells whether the value is 0
-- and the negative flag is its bit 7; the other flags are as they were.
pub get_flag-set_zn :
    (cpu : Cpu) (v j : ℕ)
    → cpu.p < 256
    → v < 256
    → j < 8
    → get_flag (set_zn cpu v) (2 ^ j)
      ≡ (if j == 1 then v == 0 else if j == 7 then not (ltb v 128) else get_flag cpu (2 ^ j))
unfolding set_zn
get_flag-set_zn cpu v j hp hv hj = ground (
  arith,
  get_flag-set_flag (set_flag cpu flag_zero (v == 0)) 7 j (not (bit_and v 0x80 == 0))
      (p-set_flag-lt cpu flag_zero (v == 0) hp (omega arith)) (omega arith) hj,
  get_flag-set_flag cpu 1 j (v == 0) hp (omega arith) hj,
  and_bit7 v,
)
