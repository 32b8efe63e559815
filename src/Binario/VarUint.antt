-- ===== src/Binario/VarUint.antt =====
-- Variable-length numbers of internal/binario: the loop of the writer ends, and the reader gives the
-- number back.
use dendy.Prelude.{
  ℕ, zero, suc, ◌+◌, ◌*◌, ◌/◌, ◌%◌, ◌^◌, ◌≤◌, ◌<◌, ◌≡◌, refl, ap, ◌∙◌, arith, bit_and, bit_or, u8,
  u64, ltb, ◌==◌, if◌then◌else◌, true, false, Bool-cases, inl, inr, some, List, [], ◌∷◌, ◌++◌,
  length,
}
use mathlib.Core.List.{append_assoc}
use native.Mathlib.Nat.{pow-suc, add-mul, mul_assoc, mul-le-mul_right}
use dendy.Prelude.Bits.{and_127, and_bit7, or_disjoint, or_comm, table_eq, all_below}
use dendy.Binario.Writer.{write_uint8, write_var_loop, write_var_uint}
use dendy.Binario.Reader.{overwrite, read_var_loop, read_var_uint}
use dendy.Binario.RoundTrip.{length-overwrite}

-- The groups of seven bits, the lowest first; all but the last have bit 7.
groups : ℕ → ℕ → List ℕ
groups zero v = []
groups (suc n) v =
    let more = groups n (v / 128) in if ltb v 128 then v ∷ [] else bit_or (u8 v) 0x80 ∷ more

more_left : (n q : ℕ) → 1 ≤ q → q < 128 ^ n → 0 < n
more_left zero q h k = absurd (omega arith)
more_left (suc n) q h k = omega arith

write_var_loop-groups :
    (n v : ℕ) (w : List ℕ) → v < 128 ^ n → 0 < n → write_var_loop n v w ≡ some (w ++ groups n v)
unfolding groups write_var_loop write_uint8
write_var_loop-groups zero v w h p = absurd (omega arith)
write_var_loop-groups (suc n) v w h p = elim (Bool-cases (ltb v 128)) [
  | inl e ↦
      let small : u8 v ≡ v = let b : v < 128 = ground arith in omega arith in rw (e, small) refl
  | inr e ↦
      let big : 128 ≤ v = ground arith in
      let rest : v / 128 < 128 ^ n = omega arith in
      rw e (
        write_var_loop-groups n (v / 128) (w ++ (bit_or (u8 v) 0x80 ∷ [])) rest
          (more_left n (v / 128) (omega arith) rest)
        ∙ ap some (append_assoc w (bit_or (u8 v) 0x80 ∷ []) (groups n (v / 128))))
]

low_bits : (v : ℕ) → bit_and (bit_or (u8 v) 0x80) 0x7F ≡ v % 128
unfolding all_below
low_bits v =
    table_eq 256 (λ x. bit_and (bit_or x 0x80) 0x7F) (λ x. x % 128) (u8 v) refl (omega arith)
    ∙ omega arith

flag_bit : (v : ℕ) → bit_and (bit_or (u8 v) 0x80) 0x80 ≡ 0x80
unfolding all_below
flag_bit v = table_eq 256 (λ x. bit_and (bit_or x 0x80) 0x80) (λ x. 0x80) (u8 v) refl (omega arith)

joined :
    (value g shift : ℕ)
    → value < 2 ^ shift
    → g * 2 ^ shift < 2 ^ 64
    → bit_or value (u64 (g * 2 ^ shift)) ≡ value + g * 2 ^ shift
joined value g shift h k =
    ap (bit_or value) {x = u64 (g * 2 ^ shift)} {y = g * 2 ^ shift} (omega arith)
    ∙ or_comm value (g * 2 ^ shift)
    ∙ or_disjoint shift g value h
    ∙ omega arith

shifted_7 : (s : ℕ) → 2 ^ (s + 7) ≡ 128 * 2 ^ s
shifted_7 zero = omega arith
shifted_7 (suc s) =
    ap (λ t. 2 ^ t) {x = suc s + 7} {y = suc (s + 7)} (omega arith)
    ∙ omega (arith, pow-suc 2 (s + 7), pow-suc 2 s, shifted_7 s)

-- The value below a group and the ones above it.
split_group : (v p : ℕ) → v * p ≡ v / 128 * (128 * p) + v % 128 * p
split_group v p =
    ap (λ t. t * p) {x = v} {y = v / 128 * 128 + v % 128} (omega arith)
    ∙ add-mul (v / 128 * 128) (v % 128) p
    ∙ ap (λ t. t + v % 128 * p) (mul_assoc (v / 128) 128 p)

abbrev ReadsNumber : List ℕ → List ℕ → ℕ → ℕ → ℕ → List ℕ → Type 0
ReadsNumber bytes buf value shift v rest =
    (filled : List ℕ) × (length filled ≡ 8)
    × (read_var_loop bytes buf value shift
        ≡ (some (value + v * 2 ^ shift), record { unread = rest; buf = filled }))

read_var_loop-groups :
    (n v value shift : ℕ) (rest buf : List ℕ)
    → v < 128 ^ n
    → 0 < n
    → value < 2 ^ shift
    → v * 2 ^ shift < 2 ^ 64
    → length buf ≡ 8
    → ReadsNumber (groups n v ++ rest) buf value shift v rest
unfolding groups read_var_loop
read_var_loop-groups zero v value shift rest buf h p hv hs hb = absurd (omega arith)
read_var_loop-groups (suc n) v value shift rest buf h p hv hs hb = elim (Bool-cases (ltb v 128)) [
  | inl e ↦
      let b : v < 128 = ground arith in
      let group : bit_and v 0x7F ≡ v = omega (arith, and_127 v) in
      let last : (bit_and v 0x80 == 0) ≡ true =
        let clear : bit_and v 0x80 ≡ 0 = omega (arith, and_bit7 v) in ground arith in
      (
        overwrite buf (v ∷ []),
        length-overwrite buf (v ∷ []) ∙ hb,
        rw (e, group, last)
            (ap (λ t. (some t, record { unread = rest; buf = overwrite buf (v ∷ []) }))
              (joined value v shift hv hs)),
      )
  | inr e ↦
      let g = v % 128 in
      let q = v / 128 in
      let power = 2 ^ shift in
      let byte = bit_or (u8 v) 0x80 in
      let parts = split_group v power in
      let big : 128 ≤ v = ground arith in
      let left : q < 128 ^ n = omega arith in
      let small : g * 2 ^ shift < 2 ^ 64 = omega arith in
      let cut : g * power ≤ 127 * power = mul-le-mul_right power (omega arith) in
      let next : value + g * 2 ^ shift < 2 ^ (shift + 7) = omega (arith, shifted_7 shift) in
      let high : q * 2 ^ (shift + 7) ≡ q * (128 * power) = ap (λ t. q * t) (shifted_7 shift) in
      let going : (bit_and byte 0x80 == 0) ≡ false = ap (λ t. t == 0) (flag_bit v) in
      let (filled, sized, read) =
        read_var_loop-groups n q (value + g * 2 ^ shift) (shift + 7) rest
          (overwrite buf (byte ∷ [])) left (more_left n q (omega arith) left) next (omega arith)
          (length-overwrite buf (byte ∷ []) ∙ hb) in
      (
        filled,
        sized,
        rw (e, low_bits v, going, joined value g shift hv small, read)
            (ap (λ t. (some t, record { unread = rest; buf = filled })) (omega arith)),
      )
]

-- WriteVarUint ends for every 64-bit number, within its rounds, and ReadVarUint gives the number back
-- and leaves what follows in the buffer.
pub read_var_uint-write_var_uint :
    (v : ℕ) (rest buf : List ℕ)
    → v < 2 ^ 64
    → length buf ≡ 8
    → (bytes filled : List ℕ) × (write_var_uint v [] ≡ some bytes)
      × (read_var_uint (record { unread = bytes ++ rest; buf = buf })
          ≡ (some v, record { unread = rest; buf = filled }))
unfolding write_var_uint read_var_uint
read_var_uint-write_var_uint v rest buf h hb =
    let (filled, sized, read) =
      read_var_loop-groups 10 v 0 0 rest buf (omega arith) (omega arith) (omega arith) (omega arith)
        hb in
    (
      groups 10 v,
      filled,
      write_var_loop-groups 10 v [] (omega arith) (omega arith),
      read
          ∙ ap (λ t. (some t, record { unread = rest; buf = filled })) {x = 0 + v * 2 ^ 0} {y = v}
              (omega arith),
    )
