-- ===== src/Binario/RoundTrip.antt =====
-- What is written is read again, whatever follows it and whatever the scratch buffer holds.
use dendy.Prelude.{
  ℕ, zero, suc, ◌+◌, ◌*◌, ◌/◌, ◌%◌, ◌^◌, ◌≤◌, ◌<◌, ◌≡◌, refl, ap, ap₂, subst, ◌∙◌, sym, arith, u32,
  not, ltb, ◌==◌, if◌then◌else◌, Bool, true, false, Bool-cases, inl, inr, some, List, [], ◌∷◌, ◌++◌,
  length, take, drop, drop_all,
}
use mathlib.Core.List.{append-nil}
use dendy.Binario.Writer.{write_uint32, write_byte_slice, put_uint}
use dendy.Binario.Reader.{
  Reader, overwrite, read_into, get_uint, to, decode_uint, read_uint, read_uint8_to, read_uint16_to,
  read_uint32_to, read_uint64_to, read_bool_to, read_byte_slice_to, read_uint8, read_uint16,
  read_uint32, read_uint64, read_bool, slice_to_body, sized_slice_to,
}

pub length-overwrite : (dst src : List ℕ) → length (overwrite dst src) ≡ length dst
length-overwrite dst [] = refl
length-overwrite [] (s ∷ src) = refl
length-overwrite (d ∷ dst) (s ∷ src) = ap suc (length-overwrite dst src)

-- A read of `v` that leaves `rest`, with the scratch buffer at its size.
pub record Reads {ℓ} {A : Type ℓ} (result : A × Bool × Reader) (v : A) (rest : List ℕ)
    : Type ℓ where
  pub buf : List ℕ
  pub sized : length buf ≡ 8
  pub returns : result ≡ (v, true, record { unread = rest; buf = buf })

-- Bytes over the front of a destination that is no shorter.
overwrite_front :
    (dst src : List ℕ) → length src ≤ length dst → overwrite dst src ≡ src ++ drop (length src) dst
overwrite_front dst [] h = refl
overwrite_front [] (s ∷ src) h = absurd (omega arith)
overwrite_front (d ∷ dst) (s ∷ src) h = ap (◌∷◌ s) (overwrite_front dst src (omega arith))

take_front : (xs ys : List ℕ) → take (length xs) (xs ++ ys) ≡ xs
take_front [] ys = refl
take_front (x ∷ xs) ys = ap (◌∷◌ x) (take_front xs ys)

drop_front : (xs ys : List ℕ) → drop (length xs) (xs ++ ys) ≡ ys
drop_front [] ys = refl
drop_front (x ∷ xs) ys = drop_front xs ys

-- A whole read takes the front.
read_into_whole :
    (x : ℕ) (xs rest dst : List ℕ)
    → read_into (length (x ∷ xs)) ((x ∷ xs) ++ rest) dst ≡ some (rest, overwrite dst (x ∷ xs))
read_into_whole x xs rest dst =
    ap₂ (λ a b. some (a, overwrite dst b)) (drop_front (x ∷ xs) rest) (take_front (x ∷ xs) rest)

get_uint-overwrite :
    (n v : ℕ) (dst : List ℕ)
    → n ≤ length dst
    → v < 256 ^ n
    → get_uint n (overwrite dst (put_uint n v)) ≡ v
get_uint-overwrite zero v dst h hv = omega arith
get_uint-overwrite (suc n) v [] h hv = absurd (omega arith)
get_uint-overwrite (suc n) v (d ∷ dst) h hv =
    let smaller : v / 256 < 256 ^ n = omega arith in
    ap (λ t. v % 256 + 256 * t) (get_uint-overwrite n (v / 256) dst (omega arith) smaller)
    ∙ omega arith

length-put_uint : (n v : ℕ) → length (put_uint n v) ≡ n
length-put_uint zero v = refl
length-put_uint (suc n) v = ap suc (length-put_uint n (v / 256))

read_uint-some :
    (n v : ℕ) (rest buf : List ℕ)
    → n < 8
    → length buf ≡ 8
    → v < 256 ^ suc n
    → read_uint (suc n) (record { unread = put_uint (suc n) v ++ rest; buf = buf })
      ≡ (some v, record { unread = rest; buf = overwrite buf (put_uint (suc n) v) })
read_uint-some n v rest buf hn hb hv =
    let filled = overwrite buf (put_uint (suc n) v) in
    let front : read_into (suc n) (put_uint (suc n) v ++ rest) buf ≡ some (rest, filled) =
      ap (λ t. read_into t (put_uint (suc n) v ++ rest) buf) (sym (length-put_uint (suc n) v))
      ∙ read_into_whole (v % 256) (put_uint n (v / 256)) rest buf in
    ap (decode_uint (suc n) (record { unread = put_uint (suc n) v ++ rest; buf = buf })) front
    ∙ ap (λ t. (some t, record { unread = rest; buf = filled }))
        (get_uint-overwrite (suc n) v buf (omega arith) hv)

read_uint-whole :
    (n v dst : ℕ) (rest buf : List ℕ)
    → n < 8
    → length buf ≡ 8
    → v < 256 ^ suc n
    → Reads
        (to (read_uint (suc n) (record { unread = put_uint (suc n) v ++ rest; buf = buf })) dst)
        v
        rest
read_uint-whole n v dst rest buf hn hb hv = record {
  buf = overwrite buf (put_uint (suc n) v);
  sized = length-overwrite buf (put_uint (suc n) v) ∙ hb;
  returns = ap (λ o. to o dst) (read_uint-some n v rest buf hn hb hv);
}

-- A slice that fits is written as its size and its bytes.
pub write_byte_slice_lem :
    (xs w : List ℕ)
    → length xs < 2 ^ 32
    → write_byte_slice xs w ≡ (w ++ put_uint 4 (length xs)) ++ xs
unfolding write_byte_slice write_uint32
write_byte_slice_lem xs w h =
    let small : u32 (length xs) ≡ length xs = omega arith in
    elim (Bool-cases (length xs == 0)) [
      | inl e ↦ rw (small, e) (sized_nil xs (w ++ put_uint 4 (length xs)) e)
      | inr e ↦ rw (small, e) refl
    ]
  where
    sized_nil : (ys zs : List ℕ) → (length ys == 0) ≡ true → zs ≡ zs ++ ys
    sized_nil [] zs e = sym (append-nil zs)
    sized_nil (y ∷ ys) zs e = absurd (ground arith)

module _ (rest buf : List ℕ) (hb : length buf ≡ 8) where
  pub read_uint8_to-byte :
      (v dst : ℕ)
      → v < 256
      → Reads (read_uint8_to dst (record { unread = v ∷ rest; buf = buf })) v rest
  unfolding read_uint8_to read_uint8
  read_uint8_to-byte v dst h =
      subst (λ t. Reads (read_uint8_to dst (record { unread = t ∷ rest; buf = buf })) v rest)
        {x = v % 256} {y = v} (omega arith) (read_uint-whole 0 v dst rest buf (omega arith) hb h)

  pub read_uint16_to-put :
      (v dst : ℕ)
      → v < 2 ^ 16
      → Reads (read_uint16_to dst (record { unread = put_uint 2 v ++ rest; buf = buf })) v rest
  unfolding read_uint16_to read_uint16
  read_uint16_to-put v dst h = read_uint-whole 1 v dst rest buf (omega arith) hb h

  pub read_uint32_to-put :
      (v dst : ℕ)
      → v < 2 ^ 32
      → Reads (read_uint32_to dst (record { unread = put_uint 4 v ++ rest; buf = buf })) v rest
  unfolding read_uint32_to read_uint32
  read_uint32_to-put v dst h = read_uint-whole 3 v dst rest buf (omega arith) hb h

  pub read_uint64_to-put :
      (v dst : ℕ)
      → v < 2 ^ 64
      → Reads (read_uint64_to dst (record { unread = put_uint 8 v ++ rest; buf = buf })) v rest
  unfolding read_uint64_to read_uint64
  read_uint64_to-put v dst h = read_uint-whole 7 v dst rest buf (omega arith) hb h

  pub read_bool_to-byte :
      (v dst : Bool)
      → Reads (read_bool_to dst (record { unread = (if v then 1 else 0) ∷ rest; buf = buf })) v rest
  unfolding read_bool_to read_bool read_uint8
  read_bool_to-byte true dst = record {
    buf = overwrite buf (1 ∷ []);
    sized = length-overwrite buf (1 ∷ []) ∙ hb;
    returns =
        ap (λ t. (not (t == 0), true, record { unread = rest; buf = overwrite buf (1 ∷ []) }))
          (get_uint-overwrite 1 1 buf (omega arith) (omega arith));
  }
  read_bool_to-byte false dst = record {
    buf = overwrite buf (0 ∷ []);
    sized = length-overwrite buf (0 ∷ []) ∙ hb;
    returns =
        ap (λ t. (not (t == 0), true, record { unread = rest; buf = overwrite buf (0 ∷ []) }))
          (get_uint-overwrite 1 0 buf (omega arith) (omega arith));
  }

  slice_to_body-Reads :
      (xs dst buf : List ℕ)
      → length buf ≡ 8
      → length xs ≤ length dst
      → Reads
          (slice_to_body (length xs) dst (record { unread = xs ++ rest; buf = buf }))
          (xs ++ drop (length xs) dst)
          rest
  slice_to_body-Reads [] dst buf hb e = record { buf = buf; sized = hb; returns = refl }
  slice_to_body-Reads (x ∷ xs) dst buf hb e =
      let busy : (length (x ∷ xs) == 0) ≡ false = ground arith in
      let fits : ltb (length dst) (length (x ∷ xs)) ≡ false = ground arith in
      record {
        buf = buf;
        sized = hb;
        returns =
            rw (busy, fits)
              (ap₂ (λ a b. (overwrite dst (x ∷ a), true, record { unread = b; buf = buf }))
                  (take_front xs rest) (drop_front xs rest)
                ∙ ap (λ t. (t, true, record { unread = rest; buf = buf }))
                    (overwrite_front dst (x ∷ xs) e));
      }

  -- Into a destination that is no shorter, the bytes over its front.
  pub read_byte_slice_to-write :
      (xs dst : List ℕ)
      → length xs ≤ length dst
      → length xs < 2 ^ 32
      → Reads
          (read_byte_slice_to dst
            (record { unread = put_uint 4 (length xs) ++ (xs ++ rest); buf = buf }))
          (xs ++ drop (length xs) dst)
          rest
  unfolding read_byte_slice_to read_uint32
  read_byte_slice_to-write xs dst e h =
      let filled = overwrite buf (put_uint 4 (length xs)) in
      let full : length filled ≡ 8 = length-overwrite buf (put_uint 4 (length xs)) ∙ hb in
      let body = slice_to_body-Reads xs dst filled full e in
      record {
        buf = body.buf;
        sized = body.sized;
        returns =
            ap (sized_slice_to dst)
              (read_uint-some 3 (length xs) (xs ++ rest) buf (omega arith) hb h)
            ∙ body.returns;
      }

  -- Into a destination of the same size, the bytes.
  pub read_byte_slice_to-put :
      (xs dst : List ℕ)
      → length dst ≡ length xs
      → length xs < 2 ^ 32
      → Reads
          (read_byte_slice_to dst
            (record { unread = put_uint 4 (length xs) ++ (xs ++ rest); buf = buf }))
          xs
          rest
  read_byte_slice_to-put xs dst e h =
      subst
        (λ t.
          Reads
            (read_byte_slice_to dst
              (record { unread = put_uint 4 (length xs) ++ (xs ++ rest); buf = buf }))
            t rest)
        (ap (λ t. xs ++ t) (drop_all dst (length xs) (omega arith)) ∙ append-nil xs)
        (read_byte_slice_to-write xs dst (omega arith) h)

  -- The read that gives the number itself.
  pub read_uint32-put :
      (v : ℕ)
      → v < 2 ^ 32
      → (filled : List ℕ) × (length filled ≡ 8)
        × (read_uint32 (record { unread = put_uint 4 v ++ rest; buf = buf })
            ≡ (some v, record { unread = rest; buf = filled }))
  unfolding read_uint32
  read_uint32-put v h = (
    overwrite buf (put_uint 4 v),
    length-overwrite buf (put_uint 4 v) ∙ hb,
    read_uint-some 3 v rest buf (omega arith) hb h,
  )
