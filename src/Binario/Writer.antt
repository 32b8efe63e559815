-- ===== src/Binario/Writer.antt =====
-- internal/binario/writer.go. The `io.Writer` is a `bytes.Buffer`, whose writes append and return no
-- error, so each method takes the bytes written so far to those after it.
use dendy.Prelude.{
  ℕ, zero, suc, ◌/◌, ◌%◌, ◌^◌, bit_or, u8, u32, ltb, ◌==◌, if◌then◌else◌, Bool, Option, none, some,
  List, [], ◌∷◌, ◌++◌, length,
}

abbrev pub Writer : Type 0
Writer = List ℕ

-- `PutUint16`, `PutUint32` and `PutUint64` of a number of so many bytes.
abbrev pub put_uint : ℕ → ℕ → List ℕ
put_uint zero v = []
put_uint (suc n) v = v % 256 ∷ put_uint n (v / 256)

unfoldable pub write_uint8 : ℕ → Writer → Writer
write_uint8 v w = w ++ (v ∷ [])

unfoldable pub write_uint16 : ℕ → Writer → Writer
write_uint16 v w = w ++ put_uint 2 v

unfoldable pub write_uint32 : ℕ → Writer → Writer
write_uint32 v w = w ++ put_uint 4 v

unfoldable pub write_uint64 : ℕ → Writer → Writer
write_uint64 v w = w ++ put_uint 8 v

unfoldable pub write_bool : Bool → Writer → Writer
write_bool value w = if value then write_uint8 1 w else write_uint8 0 w

unfoldable pub write_raw_bytes : List ℕ → Writer → Writer
write_raw_bytes value w = w ++ value

unfoldable pub write_byte_slice : List ℕ → Writer → Writer
write_byte_slice value w =
    let size = u32 (length value) in
    let sized = write_uint32 size w in if size == 0 then sized else sized ++ value

unfoldable pub write_string : List ℕ → Writer → Writer
write_string = write_byte_slice

-- The rounds of the loop that are allowed; `none` if they do not suffice.
unfoldable pub write_var_loop : ℕ → ℕ → Writer → Option Writer
write_var_loop zero value w = none
write_var_loop (suc fuel) value w =
    let more = write_var_loop fuel (value / 2 ^ 7) (write_uint8 (bit_or (u8 value) 0x80) w) in
    if ltb value 0x80 then some (write_uint8 (u8 value) w) else more

-- Ten groups of seven bits hold 64 bits.
unfoldable pub write_var_uint : ℕ → Writer → Option Writer
write_var_uint = write_var_loop 10
