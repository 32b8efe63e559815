-- ===== src/Binario/Values.antt =====
-- A value of every kind, written with one method of internal/binario/writer.go and read with the
-- method of internal/binario/reader.go of the same name.
use dendy.Prelude.{
  ℕ, ◌^◌, ◌<◌, ◌≤◌, ◌≡◌, ◌∙◌, sym, ap, subst, Bool, true, false, List, [], ◌++◌, length, drop,
}
use dendy.Binario.Writer.{
  write_uint8, write_uint16, write_uint32, write_uint64, write_bool, write_byte_slice, put_uint,
}
use dendy.Binario.Reader.{
  read_uint8_to, read_uint16_to, read_uint32_to, read_uint64_to, read_bool_to, read_byte_slice_to,
}
use dendy.Binario.RoundTrip.{
  Reads, read_uint8_to-byte, read_uint16_to-put, read_uint32_to-put, read_uint64_to-put,
  read_bool_to-byte, read_byte_slice_to-write, write_byte_slice_lem,
}
use mathlib.Core.List.{append_assoc}

-- A number below 256, 2 ^ 16, 2 ^ 32 or 2 ^ 64 and a flag are read as they were written,
-- whatever the destination held before; a slice that is shorter than 2 ^ 32 bytes and no longer
-- than its destination is read into the front of the destination, the rest of which stays. No
-- read gives an error, and what follows in the buffer is left.
pub read-write :
    (v8 v16 v32 v64 dst : ℕ) (flag old : Bool) (xs slice rest buf : List ℕ)
    → v8 < 256
    → v16 < 2 ^ 16
    → v32 < 2 ^ 32
    → v64 < 2 ^ 64
    → length xs ≤ length slice
    → length xs < 2 ^ 32
    → length buf ≡ 8
    → Reads (read_uint8_to dst (record { unread = write_uint8 v8 [] ++ rest; buf = buf })) v8 rest
      × Reads
          (read_uint16_to dst (record { unread = write_uint16 v16 [] ++ rest; buf = buf }))
          v16
          rest
      × Reads
          (read_uint32_to dst (record { unread = write_uint32 v32 [] ++ rest; buf = buf }))
          v32
          rest
      × Reads
          (read_uint64_to dst (record { unread = write_uint64 v64 [] ++ rest; buf = buf }))
          v64
          rest
      × Reads
          (read_bool_to old (record { unread = write_bool flag [] ++ rest; buf = buf }))
          flag
          rest
      × Reads
          (read_byte_slice_to slice (record { unread = write_byte_slice xs [] ++ rest; buf = buf }))
          (xs ++ drop (length xs) slice)
          rest
unfolding write_uint8 write_uint16 write_uint32 write_uint64 write_bool
read-write v8 v16 v32 v64 dst flag old xs slice rest buf h8 h16 h32 h64 e hl hb = (
  read_uint8_to-byte rest buf hb v8 dst h8,
  read_uint16_to-put rest buf hb v16 dst h16,
  read_uint32_to-put rest buf hb v32 dst h32,
  read_uint64_to-put rest buf hb v64 dst h64,
  flagged flag,
  subst
      (λ t.
        Reads (read_byte_slice_to slice (record { unread = t; buf = buf }))
          (xs ++ drop (length xs) slice) rest)
      (sym (
        ap (λ t. t ++ rest) (write_byte_slice_lem xs [] hl)
        ∙ append_assoc (put_uint 4 (length xs)) xs rest))
      (read_byte_slice_to-write rest buf hb xs slice e hl),
)
  where
    flagged :
        (b : Bool)
        → Reads (read_bool_to old (record { unread = write_bool b [] ++ rest; buf = buf })) b rest
    flagged true = read_bool_to-byte rest buf hb true old
    flagged false = read_bool_to-byte rest buf hb false old
