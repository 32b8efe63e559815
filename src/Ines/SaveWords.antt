-- ===== src/Ines/SaveWords.antt =====
-- The loops over arrays in the save state of ines/mapper004.go, and what each write appends.
use dendy.Prelude.{
  ℕ, ◌<◌, ◌^◌, ◌≡◌, refl, ap, ◌∙◌, arith, u32, if◌then◌else◌, Bool, true, false, some, List, [],
  ◌∷◌, ◌++◌, length,
}
use mathlib.Core.List.{append_assoc}
use dendy.Binario.Writer.{write_uint8, write_uint32, write_bool, write_byte_slice, put_uint}
use dendy.Binario.RoundTrip.{Reads, write_byte_slice_lem, read_uint32-put}
use dendy.Ines.Mapper4.{write_words, read_words, next_words}

abbrev pub words_bytes : List ℕ → List ℕ
words_bytes [] = []
words_bytes (v ∷ vs) = put_uint 4 v ++ words_bytes vs

pub data AllWords : List ℕ → Type 0 where
  nil : AllWords []
  cons : {v : ℕ} {vs : List ℕ} → v < 2 ^ 32 → AllWords vs → AllWords (v ∷ vs)

pub words_written :
    (vs w rest : List ℕ) → AllWords vs → write_words vs w ++ rest ≡ w ++ (words_bytes vs ++ rest)
unfolding write_words write_uint32
words_written [] w rest all = refl
words_written (v ∷ vs) w rest (cons h all) =
    let small : u32 v ≡ v = omega arith in
    rw small (
      words_written vs (w ++ put_uint 4 v) rest all
      ∙ append_assoc w (put_uint 4 v) (words_bytes vs ++ rest))

pub byte_written : (v : ℕ) (w rest : List ℕ) → write_uint8 v w ++ rest ≡ w ++ (v ∷ rest)
unfolding write_uint8
byte_written v w rest = append_assoc w (v ∷ []) rest

pub bool_written :
    (v : Bool) (w rest : List ℕ) → write_bool v w ++ rest ≡ w ++ ((if v then 1 else 0) ∷ rest)
unfolding write_bool write_uint8
bool_written true w rest = append_assoc w (1 ∷ []) rest
bool_written false w rest = append_assoc w (0 ∷ []) rest

pub slice_written :
    (xs w rest : List ℕ)
    → length xs < 2 ^ 32
    → write_byte_slice xs w ++ rest ≡ w ++ (put_uint 4 (length xs) ++ (xs ++ rest))
slice_written xs w rest h =
    ap (λ t. t ++ rest) (write_byte_slice_lem xs w h)
    ∙ append_assoc (w ++ put_uint 4 (length xs)) xs rest
    ∙ append_assoc w (put_uint 4 (length xs)) (xs ++ rest)

pub words_loaded :
    (vs old rest buf : List ℕ)
    → AllWords vs
    → length old ≡ length vs
    → length buf ≡ 8
    → Reads (read_words old (record { unread = words_bytes vs ++ rest; buf = buf })) vs rest
unfolding read_words
words_loaded [] [] rest buf all e hb = record { buf = buf; sized = hb; returns = refl }
words_loaded [] (o ∷ old) rest buf all e hb = absurd (omega arith)
words_loaded (v ∷ vs) [] rest buf all e hb = absurd (omega arith)
words_loaded (v ∷ vs) (o ∷ old) rest buf (cons h all) e hb =
    let (filled, sized, word) = read_uint32-put (words_bytes vs ++ rest) buf hb v h in
    let more = words_loaded vs old rest filled all (omega arith) sized in
    record {
      buf = more.buf;
      sized = more.sized;
      returns =
          ap (λ t. next_words (o ∷ old) t (read_words old t.1)) word
          ∙ ap
              (next_words (o ∷ old)
                (some v, record { unread = words_bytes vs ++ rest; buf = filled }))
              more.returns;
    }
