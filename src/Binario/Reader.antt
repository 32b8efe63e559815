-- ===== src/Binario/Reader.antt =====
-- internal/binario/reader.go. The `io.Reader` is a `bytes.Buffer`: a read takes as many bytes as
-- there are, up to the size asked for, and fails at the end of the buffer. The methods of `Reader`
-- do not look at the number of bytes read, so a short read leaves old bytes in place.
use dendy.Prelude.{
  ℕ, zero, suc, ◌+◌, ◌*◌, ◌^◌, bit_and, bit_or, u64, ltb, ◌==◌, if◌then◌else◌, Bool, true, false,
  not, Option, none, some, List, [], ◌∷◌, length, take, drop, replicate,
}
use mathlib.Core.Option

pub record Reader : Type 0 where
  pub unread : List ℕ
  pub buf : List ℕ  -- [8]byte

-- `copy(dst, src)`
abbrev pub overwrite : List ℕ → List ℕ → List ℕ
overwrite dst [] = dst
overwrite [] (s ∷ src) = []
overwrite (d ∷ dst) (s ∷ src) = s ∷ overwrite dst src

-- `Read(dst[:n])` of the buffer: the bytes that stay unread, and `dst` after it.
abbrev pub read_into : ℕ → List ℕ → List ℕ → Option (List ℕ × List ℕ)
read_into zero [] dst = some ([], dst)
read_into (suc n) [] dst = none
read_into n (b ∷ bs) dst = some (drop n (b ∷ bs), overwrite dst (take n (b ∷ bs)))

-- `Uint16`, `Uint32` and `Uint64` of the first bytes.
abbrev pub get_uint : ℕ → List ℕ → ℕ
get_uint zero bs = 0
get_uint (suc n) [] = 0
get_uint (suc n) (b ∷ bs) = b + 256 * get_uint n bs

-- What a read of `n` bytes into the scratch buffer gives.
abbrev pub decode_uint : ℕ → Reader → Option (List ℕ × List ℕ) → Option ℕ × Reader
decode_uint n r none = (none, r)
decode_uint n r (some (rest, filled)) =
    (some (get_uint n filled), record { unread = rest; buf = filled })

-- The four methods below, by the number of bytes.
abbrev pub read_uint : ℕ → Reader → Option ℕ × Reader
read_uint n r = decode_uint n r (read_into n r.unread r.buf)

unfoldable pub read_uint8 : Reader → Option ℕ × Reader
read_uint8 = read_uint 1

unfoldable pub read_uint16 : Reader → Option ℕ × Reader
read_uint16 = read_uint 2

unfoldable pub read_uint32 : Reader → Option ℕ × Reader
read_uint32 = read_uint 4

unfoldable pub read_uint64 : Reader → Option ℕ × Reader
read_uint64 = read_uint 8

unfoldable pub read_bool : Reader → Option Bool × Reader
read_bool r = let (byte, r1) = read_uint8 r in (Option.map (λ b. not (b == 0)) byte, r1)

-- The methods that end in `To`: the destination keeps its value on an error, which is `false`.
abbrev pub to {ℓ} : {A : Type ℓ} → Option A × Reader → A → A × Bool × Reader
to (none, r) dst = (dst, false, r)
to (some v, r) dst = (v, true, r)

unfoldable pub read_uint8_to : ℕ → Reader → ℕ × Bool × Reader
read_uint8_to dst r = to (read_uint8 r) dst

unfoldable pub read_uint16_to : ℕ → Reader → ℕ × Bool × Reader
read_uint16_to dst r = to (read_uint16 r) dst

unfoldable pub read_uint32_to : ℕ → Reader → ℕ × Bool × Reader
read_uint32_to dst r = to (read_uint32 r) dst

unfoldable pub read_uint64_to : ℕ → Reader → ℕ × Bool × Reader
read_uint64_to dst r = to (read_uint64 r) dst

unfoldable pub read_bool_to : Bool → Reader → Bool × Bool × Reader
read_bool_to dst r = to (read_bool r) dst

-- The bytes of a slice after its size.
abbrev pub slice_body : ℕ → Reader → Option (List ℕ) × Reader
slice_body size r =
    if size == 0 then (some [], r) else elim (read_into size r.unread (replicate size 0)) [
      | none ↦ (none, r)
      | some (rest, filled) ↦ (some filled, record r { unread = rest })
    ]

unfoldable pub read_byte_slice : Reader → Option (List ℕ) × Reader
read_byte_slice r =
    let (length, r1) = read_uint32 r in
    elim length [ none ↦ (none, r1) | some size ↦ slice_body size r1 ]

abbrev pub slice_to_body : ℕ → List ℕ → Reader → List ℕ × Bool × Reader
slice_to_body size dst r =
    if size == 0
    then (dst, true, r)
    else if ltb (length dst) size
    then (dst, false, r)
    else elim (read_into size r.unread dst) [
      | none ↦ (dst, false, r)
      | some (rest, filled) ↦ (filled, true, record r { unread = rest })
    ]

abbrev pub sized_slice_to : List ℕ → Option ℕ × Reader → List ℕ × Bool × Reader
sized_slice_to dst (none, r) = (dst, false, r)
sized_slice_to dst (some size, r) = slice_to_body size dst r

unfoldable pub read_byte_slice_to : List ℕ → Reader → List ℕ × Bool × Reader
read_byte_slice_to dst r = sized_slice_to dst (read_uint32 r)

unfoldable pub read_raw_bytes_to : List ℕ → Reader → List ℕ × Bool × Reader
read_raw_bytes_to dst r = elim (read_into (length dst) r.unread dst) [
  | none ↦ (dst, false, r)
  | some (rest, filled) ↦ (filled, true, record r { unread = rest })
]

unfoldable pub read_string : Reader → Option (List ℕ) × Reader
read_string = read_byte_slice

unfoldable pub read_string_to : List ℕ → Reader → List ℕ × Bool × Reader
read_string_to dst r = to (read_byte_slice r) dst

-- The loop over the unread bytes; each round puts its byte into the scratch buffer.
unfoldable pub read_var_loop : List ℕ → List ℕ → ℕ → ℕ → Option ℕ × Reader
read_var_loop [] buf value shift = (none, record { unread = []; buf = buf })
read_var_loop (b ∷ bs) buf value shift =
    let filled = overwrite buf (b ∷ []) in
    let next = bit_or value (u64 (bit_and b 0x7F * 2 ^ shift)) in
    let more = read_var_loop bs filled next (shift + 7) in
    if bit_and b 0x80 == 0 then (some next, record { unread = bs; buf = filled }) else more

unfoldable pub read_var_uint : Reader → Option ℕ × Reader
read_var_uint r = read_var_loop r.unread r.buf 0 0

unfoldable pub read_var_uint_to : ℕ → Reader → ℕ × Bool × Reader
read_var_uint_to dst r = to (read_var_uint r) dst
