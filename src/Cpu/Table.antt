-- ===== src/Cpu/Table.antt =====
-- The instruction table as a whole: which opcodes it decodes, and that sizes fit the modes.
use dendy.Prelude.{
  ℕ, zero, suc, ◌+◌, ◌<◌, ◌≡◌, refl, ◌∙◌, ap, ◌⊎◌, arith, Bool, true, false, not, ◌&&◌, ◌||◌, ◌==◌,
  ltb, Option, none, some, List, [], ◌∷◌, length, get_elem?,
}
use dendy.Cpu.Addr.{AddrMode, imp, acc, abs, abs_x, abs_y, ind}
use dendy.Cpu.Opcodes.{Instruction, opcodes}
use dendy.Cpu.Tick.{decode_in, decode}

-- The twelve opcodes that halt a real 6502: 02, 12, …, 72, 92, B2, D2, F2.
abbrev pub is_jam : ℕ → Bool
is_jam op =
    op == 0x02
    || op == 0x12
    || op == 0x22
    || op == 0x32
    || op == 0x42
    || op == 0x52
    || op == 0x62
    || op == 0x72
    || op == 0x92
    || op == 0xB2
    || op == 0xD2
    || op == 0xF2

-- The bytes of an instruction in each mode, the opcode included.
abbrev pub mode_size : AddrMode → ℕ
mode_size imp = 1
mode_size acc = 1
mode_size abs = 3
mode_size abs_x = 3
mode_size abs_y = 3
mode_size ind = 3
mode_size _ = 2

abbrev row_fits : ℕ → Instruction → Bool
row_fits op i =
    i.opcode == op
    && (op == 0 || i.size == mode_size i.mode)
    && ltb 0 i.size
    && ltb 1 i.cycles
    && ltb i.cycles 9

abbrev entry_fits : ℕ → Option Instruction → Bool
entry_fits op none = is_jam op
entry_fits op (some i) = not (is_jam op) && row_fits op i

both : (a b : Bool) → (a && b) ≡ true → (a ≡ true) × (b ≡ true)
both true b e = (refl, e)
both false b e = (e, cc)

walk : ℕ → List (Option Instruction) → Bool
walk op [] = true
walk op (slot ∷ slots) = entry_fits op slot && walk (op + 1) slots

walk-opcodes : walk 0 opcodes ≡ true
unfolding walk opcodes
walk-opcodes = refl

length-opcodes : length opcodes ≡ 256
unfolding opcodes
length-opcodes = refl

walk_sound :
    (slots : List (Option Instruction)) (n k : ℕ)
    → walk n slots ≡ true
    → k < length slots
    → (slot : Option Instruction) × (get_elem? slots k ≡ some slot)
      × (entry_fits (n + k) slot ≡ true)
unfolding walk
walk_sound [] n k h below = absurd (omega arith)
walk_sound (slot ∷ slots) n zero h below = (
  slot,
  refl,
  ap (λ t. entry_fits t slot) {x = n + 0} {y = n} (omega arith) ∙ (both (entry_fits n slot) _ h).0,
)
walk_sound (slot ∷ slots) n (suc k) h below =
    let (s, found, fits) =
      walk_sound slots (n + 1) k (both (entry_fits n slot) _ h).1 (omega arith) in
    (s, found, ap (λ t. entry_fits t s) {x = n + suc k} {y = n + 1 + k} (omega arith) ∙ fits)

slot_of :
    (op : ℕ)
    → op < 256
    → (slot : Option Instruction) × (get_elem? opcodes op ≡ some slot) × (entry_fits op slot ≡ true)
slot_of op h =
    let (slot, found, fits) = walk_sound opcodes 0 op walk-opcodes (rw length-opcodes h) in
    (slot, found, ap (λ t. entry_fits t slot) {x = op} {y = 0 + op} (omega arith) ∙ fits)

-- What `decode` gives on a byte: nothing for the twelve opcodes above, for any other one a row of
-- that opcode, with the size of its mode (`BRK` has a padding byte) and 2 to 8 cycles.
pub data Decodes (op : ℕ) (result : Option Instruction) : Type 0 where
  jams : is_jam op ≡ true → result ≡ none → Decodes op result
  row :
      (i : Instruction)
      → is_jam op ≡ false
      → result ≡ some i
      → i.opcode ≡ op
      → (op ≡ 0) ⊎ (i.size ≡ mode_size i.mode)
      → 1 < i.cycles
      → i.cycles < 9
      → Decodes op result

row_facts :
    (op : ℕ) (i : Instruction)
    → row_fits op i ≡ true
    → ((i.size == 0) ≡ false)
      × (i.opcode ≡ op)
      × ((op ≡ 0) ⊎ (i.size ≡ mode_size i.mode))
      × (1 < i.cycles)
      × (i.cycles < 9)
row_facts op i h = size_facts op i.opcode i.size (mode_size i.mode) i.cycles h
  where
    size_facts :
        (op code size fit cycles : ℕ)
        → (code == op && (op == 0 || size == fit) && ltb 0 size && ltb 1 cycles && ltb cycles 9)
          ≡ true
        → ((size == 0) ≡ false)
          × (code ≡ op)
          × ((op ≡ 0) ⊎ (size ≡ fit))
          × (1 < cycles)
          × (cycles < 9)
    size_facts op code size fit cycles h = ground arith

false_of_not : (b : Bool) → not b ≡ true → b ≡ false
false_of_not true e = cc
false_of_not false e = refl

decode_slot :
    (slots : List (Option Instruction)) (op : ℕ) (slot : Option Instruction)
    → get_elem? slots op ≡ some slot
    → entry_fits op slot ≡ true
    → Decodes op (decode_in slots op)
unfolding decode_in
decode_slot slots op none found fits = jams fits (rw (found, decode_in))
decode_slot slots op (some i) found fits =
    let (no_jam, fit) = both (not (is_jam op)) (row_fits op i) fits in
    let (size, code, fitting, slow, quick) = row_facts op i fit in
    row i (false_of_not (is_jam op) no_jam) (rw (found, decode_in, size)) code fitting slow quick

-- `decode` on a byte gives nothing for the twelve jamming opcodes, and for any other one the row
-- of that opcode, with the size of its addressing mode (`BRK` has a padding byte) and 2 to 8
-- cycles.
pub decode-Decodes : (op : ℕ) → op < 256 → Decodes op (decode op)
unfolding decode
decode-Decodes op h =
    let (slot, found, fits) = slot_of op h in decode_slot opcodes op slot found fits
