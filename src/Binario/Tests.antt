-- ===== src/Binario/Tests.antt =====
-- The theorem at concrete values.
use dendy.Prelude.{◌≡◌, some, refl, arith, true, false, List, [], ◌∷◌, ◌++◌, ℕ}
use dendy.Binario.Writer.{
  write_var_uint, write_uint8, write_uint16, write_uint32, write_uint64, write_bool,
  write_byte_slice,
}
use dendy.Binario.Reader.{
  read_var_uint, read_uint8_to, read_uint16_to, read_uint32_to, read_uint64_to, read_bool_to,
  read_byte_slice_to,
}
use dendy.Binario.RoundTrip.{Reads}
use dendy.Binario.Values.{read-write}
use dendy.Binario.VarUint.{read_var_uint-write_var_uint}

abbrev scratch : List ℕ
scratch = 9 ∷ 9 ∷ 9 ∷ 9 ∷ 9 ∷ 9 ∷ 9 ∷ 9 ∷ []

abbrev following : List ℕ
following = 1 ∷ 2 ∷ []

read-write_example :
    Reads
      (read_uint8_to 5 (record { unread = write_uint8 200 [] ++ following; buf = scratch }))
      200
      following
    × Reads
        (read_uint16_to 5 (record { unread = write_uint16 0xBEEF [] ++ following; buf = scratch }))
        0xBEEF
        following
    × Reads
        (read_uint32_to 5
          (record { unread = write_uint32 0xDEADBEEF [] ++ following; buf = scratch }))
        0xDEADBEEF
        following
    × Reads
        (read_uint64_to 5
          (record { unread = write_uint64 0xDEADBEEF01 [] ++ following; buf = scratch }))
        0xDEADBEEF01
        following
    × Reads
        (read_bool_to false (record { unread = write_bool true [] ++ following; buf = scratch }))
        true
        following
    × Reads
        (read_byte_slice_to
          (1 ∷ 2 ∷ 3 ∷ [])
          (record { unread = write_byte_slice (7 ∷ 8 ∷ []) [] ++ following; buf = scratch }))
        (7 ∷ 8 ∷ 3 ∷ [])
        following
read-write_example =
    read-write 200 0xBEEF 0xDEADBEEF 0xDEADBEEF01 5 true false (7 ∷ 8 ∷ []) (1 ∷ 2 ∷ 3 ∷ [])
      following scratch (omega arith) (omega arith) (omega arith) (omega arith) (omega arith)
      (omega arith) refl

read_var_uint-write_var_uint_example :
    (bytes filled : List ℕ) × (write_var_uint 0xDEADBEEF01 [] ≡ some bytes)
    × (read_var_uint (record { unread = bytes ++ following; buf = scratch })
        ≡ (some 0xDEADBEEF01, record { unread = following; buf = filled }))
read_var_uint-write_var_uint_example =
    read_var_uint-write_var_uint 0xDEADBEEF01 following scratch (omega arith) refl
