-- ===== src/Ines/Dispatch.antt =====
-- The static dispatch of ines/static.go against the dynamic one of ines/cartridge.go.
use dendy.Prelude.{
  ℕ, ◌≡◌, refl, ap, Option-cases, arith, Bool, inl, inr, Option, none, some, ◌>>=◌, List, [], ◌∷◌,
}
use mathlib.Core.Option
use dendy.Binario.Writer.{Writer}
use dendy.Binario.Reader.{Reader}
use dendy.Ines.Rom.{Rom}
use dendy.Ines.Cartridge.{
  Cartridge, mapper0, mapper1, mapper2, mapper3, mapper4, mapper7, new_cartridge,
}
use dendy.Ines.Cartridge
use dendy.Ines.Static.{StaticCartridge, new_static_cartridge}
use dendy.Ines.Static
use dendy.Ines.Mapper0
use dendy.Ines.Mapper1
use dendy.Ines.Mapper2
use dendy.Ines.Mapper3
use dendy.Ines.Mapper4
use dendy.Ines.Mapper7

-- A call of the interface `Cartridge`.
pub data Call : Type 0 where
  reset : Call
  scanline_tick : Call
  pending_irq : Call
  mirror_mode : Call
  read_prg : ℕ → Call
  write_prg : ℕ → ℕ → Call
  read_chr : ℕ → Call
  write_chr : ℕ → ℕ → Call
  save_state : Writer → Call
  load_state : Reader → Call

-- What a call returns.
pub data Reply : Type 0 where
  nothing : Reply
  flag : Bool → Reply
  byte : ℕ → Reply
  written : Writer → Reply
  loaded : Bool → Reader → Reply

unfoldable pub call_static : Call → StaticCartridge → Option (Reply × StaticCartridge)
call_static reset c = Option.map (λ n. (nothing, n)) (Static.reset c)
call_static scanline_tick c = Option.map (λ n. (nothing, n)) (Static.scanline_tick c)
call_static pending_irq c = Option.map (λ (v, n). (flag v, n)) (Static.pending_irq c)
call_static mirror_mode c = Option.map (λ v. (byte v, c)) (Static.mirror_mode c)
call_static (read_prg addr) c = Option.map (λ v. (byte v, c)) (Static.read_prg c addr)
call_static (write_prg addr v) c = Option.map (λ n. (nothing, n)) (Static.write_prg c addr v)
call_static (read_chr addr) c = Option.map (λ v. (byte v, c)) (Static.read_chr c addr)
call_static (write_chr addr v) c = Option.map (λ n. (nothing, n)) (Static.write_chr c addr v)
call_static (save_state w) c = Option.map (λ v. (written v, c)) (Static.save_state c w)
call_static (load_state r) c =
    Option.map (λ (n, ok, rest). (loaded ok rest, n)) (Static.load_state c r)

unfoldable pub call_dynamic : Call → Cartridge → Option (Reply × Cartridge)
call_dynamic reset c = Option.map (λ n. (nothing, n)) (Cartridge.reset c)
call_dynamic scanline_tick c = some (nothing, Cartridge.scanline_tick c)
call_dynamic pending_irq c = let (v, n) = Cartridge.pending_irq c in some (flag v, n)
call_dynamic mirror_mode c = Option.map (λ v. (byte v, c)) (Cartridge.mirror_mode c)
call_dynamic (read_prg addr) c = Option.map (λ v. (byte v, c)) (Cartridge.read_prg c addr)
call_dynamic (write_prg addr v) c = Option.map (λ n. (nothing, n)) (Cartridge.write_prg c addr v)
call_dynamic (read_chr addr) c = Option.map (λ v. (byte v, c)) (Cartridge.read_chr c addr)
call_dynamic (write_chr addr v) c = Option.map (λ n. (nothing, n)) (Cartridge.write_chr c addr v)
call_dynamic (save_state w) c = some (written (Cartridge.save_state c w), c)
call_dynamic (load_state r) c =
    let (n, ok, rest) = Cartridge.load_state c r in some (loaded ok rest, n)

-- A run of calls: the replies, or `none` if one panics.
unfoldable pub run {ℓ} :
    {C : Type ℓ} → (Call → C → Option (Reply × C)) → List Call → C → Option (List Reply × C)
run step [] c = some ([], c)
run step (call ∷ calls) c = do
  (reply, next) ← step call c
  (replies, last) ← run step calls next
  some (reply ∷ replies, last)

number : Cartridge → ℕ
number (mapper0 m) = 0
number (mapper1 m) = 1
number (mapper2 m) = 2
number (mapper3 m) = 3
number (mapper4 m) = 4
number (mapper7 m) = 7

-- The static cartridge of a mapper.
abbrev static : Cartridge → StaticCartridge
static c = record { mapper_id = number c; mapper = c }

map_static : Option (Reply × Cartridge) → Option (Reply × StaticCartridge)
map_static = Option.map (λ (reply, n). (reply, static n))

updated :
    {A : Type 0} (wrap : A → Cartridge) (put : A → StaticCartridge) (o : Option A)
    → ((n : A) → put n ≡ static (wrap n))
    → Option.map (λ n. (nothing, n)) (o >>= λ n. some (put n))
      ≡ map_static (Option.map (λ n. (nothing, n)) (Option.map wrap o))
unfolding map_static
updated wrap put none same = refl
updated wrap put (some n) same = ap (λ c. some (nothing, c)) (same n)

asked :
    (c : Cartridge) (o : Option ℕ)
    → Option.map (λ v. (byte v, static c)) o ≡ map_static (Option.map (λ v. (byte v, c)) o)
unfolding map_static
asked c none = refl
asked c (some v) = refl

call_agree :
    (call : Call) (c : Cartridge) → call_static call (static c) ≡ map_static (call_dynamic call c)
unfolding number map_static call_static call_dynamic Static.reset Cartridge.reset
    Static.scanline_tick Cartridge.scanline_tick Static.pending_irq Cartridge.pending_irq
    Static.mirror_mode Cartridge.mirror_mode Static.read_prg Cartridge.read_prg Static.write_prg
    Cartridge.write_prg Static.read_chr Cartridge.read_chr Static.write_chr Cartridge.write_chr
    Static.save_state Cartridge.save_state Static.load_state Cartridge.load_state
call_agree reset (mapper0 m) = refl
call_agree reset (mapper1 m) = refl
call_agree reset (mapper2 m) = refl
call_agree reset (mapper3 m) = refl
call_agree reset (mapper4 m) = updated mapper4 _ (Mapper4.reset m) (λ n. refl)
call_agree reset (mapper7 m) = refl
call_agree scanline_tick (mapper0 m) = refl
call_agree scanline_tick (mapper1 m) = refl
call_agree scanline_tick (mapper2 m) = refl
call_agree scanline_tick (mapper3 m) = refl
call_agree scanline_tick (mapper4 m) = refl
call_agree scanline_tick (mapper7 m) = refl
call_agree pending_irq (mapper0 m) = refl
call_agree pending_irq (mapper1 m) = refl
call_agree pending_irq (mapper2 m) = refl
call_agree pending_irq (mapper3 m) = refl
call_agree pending_irq (mapper4 m) = refl
call_agree pending_irq (mapper7 m) = refl
call_agree mirror_mode (mapper0 m) = asked (mapper0 m) (Mapper0.mirror_mode m)
call_agree mirror_mode (mapper1 m) = asked (mapper1 m) (Mapper1.mirror_mode m)
call_agree mirror_mode (mapper2 m) = asked (mapper2 m) (Mapper2.mirror_mode m)
call_agree mirror_mode (mapper3 m) = asked (mapper3 m) (Mapper3.mirror_mode m)
call_agree mirror_mode (mapper4 m) = asked (mapper4 m) (Mapper4.mirror_mode m)
call_agree mirror_mode (mapper7 m) = asked (mapper7 m) (Mapper7.mirror_mode m)
call_agree (read_prg addr) (mapper0 m) = asked (mapper0 m) (Mapper0.read_prg m addr)
call_agree (read_prg addr) (mapper1 m) = asked (mapper1 m) (Mapper1.read_prg m addr)
call_agree (read_prg addr) (mapper2 m) = asked (mapper2 m) (Mapper2.read_prg m addr)
call_agree (read_prg addr) (mapper3 m) = asked (mapper3 m) (Mapper3.read_prg m addr)
call_agree (read_prg addr) (mapper4 m) = asked (mapper4 m) (Mapper4.read_prg m addr)
call_agree (read_prg addr) (mapper7 m) = asked (mapper7 m) (Mapper7.read_prg m addr)
call_agree (write_prg addr v) (mapper0 m) =
    updated mapper0 _ (Mapper0.write_prg m addr v) (λ n. refl)
call_agree (write_prg addr v) (mapper1 m) =
    updated mapper1 _ (Mapper1.write_prg m addr v) (λ n. refl)
call_agree (write_prg addr v) (mapper2 m) =
    updated mapper2 _ (Mapper2.write_prg m addr v) (λ n. refl)
call_agree (write_prg addr v) (mapper3 m) =
    updated mapper3 _ (Mapper3.write_prg m addr v) (λ n. refl)
call_agree (write_prg addr v) (mapper4 m) =
    updated mapper4 _ (Mapper4.write_prg m addr v) (λ n. refl)
call_agree (write_prg addr v) (mapper7 m) =
    updated mapper7 _ (Mapper7.write_prg m addr v) (λ n. refl)
call_agree (read_chr addr) (mapper0 m) = asked (mapper0 m) (Mapper0.read_chr m addr)
call_agree (read_chr addr) (mapper1 m) = asked (mapper1 m) (Mapper1.read_chr m addr)
call_agree (read_chr addr) (mapper2 m) = asked (mapper2 m) (Mapper2.read_chr m addr)
call_agree (read_chr addr) (mapper3 m) = asked (mapper3 m) (Mapper3.read_chr m addr)
call_agree (read_chr addr) (mapper4 m) = asked (mapper4 m) (Mapper4.read_chr m addr)
call_agree (read_chr addr) (mapper7 m) = asked (mapper7 m) (Mapper7.read_chr m addr)
call_agree (write_chr addr v) (mapper0 m) =
    updated mapper0 _ (Mapper0.write_chr m addr v) (λ n. refl)
call_agree (write_chr addr v) (mapper1 m) =
    updated mapper1 _ (Mapper1.write_chr m addr v) (λ n. refl)
call_agree (write_chr addr v) (mapper2 m) =
    updated mapper2 _ (Mapper2.write_chr m addr v) (λ n. refl)
call_agree (write_chr addr v) (mapper3 m) =
    updated mapper3 _ (Mapper3.write_chr m addr v) (λ n. refl)
call_agree (write_chr addr v) (mapper4 m) =
    updated mapper4 _ (Mapper4.write_chr m addr v) (λ n. refl)
call_agree (write_chr addr v) (mapper7 m) =
    updated mapper7 _ (Mapper7.write_chr m addr v) (λ n. refl)
call_agree (save_state w) (mapper0 m) = refl
call_agree (save_state w) (mapper1 m) = refl
call_agree (save_state w) (mapper2 m) = refl
call_agree (save_state w) (mapper3 m) = refl
call_agree (save_state w) (mapper4 m) = refl
call_agree (save_state w) (mapper7 m) = refl
call_agree (load_state r) (mapper0 m) = refl
call_agree (load_state r) (mapper1 m) = refl
call_agree (load_state r) (mapper2 m) = refl
call_agree (load_state r) (mapper3 m) = refl
call_agree (load_state r) (mapper4 m) = refl
call_agree (load_state r) (mapper7 m) = refl

run_agree :
    (calls : List Call) (c : Cartridge)
    → run call_static calls (static c)
      ≡ Option.map (λ (replies, n). (replies, static n)) (run call_dynamic calls c)
unfolding run map_static
run_agree [] c = refl
run_agree (call ∷ calls) c = elim (Option-cases (call_dynamic call c)) [
  | inl e ↦ rw (call_agree call c, e) refl
  | inr ((reply, next), e) ↦ elim (Option-cases (run call_dynamic calls next)) [
    | inl f ↦ rw (call_agree call c, e, run_agree calls next, f) refl
    | inr ((replies, last), f) ↦ rw (call_agree call c, e, run_agree calls next, f) refl
  ]
]

-- The replies of a run on a new cartridge; `none` if there is no cartridge or a call panics.
unfoldable pub replies_static : Rom → List Call → Option (List Reply)
replies_static rom calls = do
  c ← new_static_cartridge rom
  (replies, last) ← run call_static calls c
  some replies

unfoldable pub replies_dynamic : Rom → List Call → Option (List Reply)
replies_dynamic rom calls = do
  c ← new_cartridge rom
  (replies, last) ← run call_dynamic calls c
  some replies

new_agree : (rom : Rom) → new_static_cartridge rom ≡ Option.map static (new_cartridge rom)
unfolding new_static_cartridge new_cartridge number
new_agree rom = ground arith

-- Both cartridges of a ROM give the same replies to every sequence of calls, or both panic, or the
-- mapper is unsupported for both.
pub replies_agree :
    (rom : Rom) (calls : List Call) → replies_static rom calls ≡ replies_dynamic rom calls
unfolding replies_static replies_dynamic
replies_agree rom calls = elim (Option-cases (new_cartridge rom)) [
  | inl e ↦ rw (new_agree rom, e) refl
  | inr (c, e) ↦ elim (Option-cases (run call_dynamic calls c)) [
    | inl f ↦ rw (new_agree rom, e, run_agree calls c, f) refl
    | inr ((replies, last), f) ↦ rw (new_agree rom, e, run_agree calls c, f) refl
  ]
]
