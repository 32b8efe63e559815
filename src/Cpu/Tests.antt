-- ===== src/Cpu/Tests.antt =====
-- The theorems at concrete registers and a memory of plain storage.
use dendy.Prelude.{
  [], ◌∷◌, ◌++◌, ℕ, ◌+◌, ◌-◌, ◌*◌, ◌^◌, ◌≤◌, ◌≡◌, refl, arith, ◌↔◌, u64, true, false, ◌==◌,
  if◌then◌else◌, none, some,
}
use dendy.Cpu.State.{
  Memory, Cpu, get_flag, set_flag, set_zn, carried, push_word, pop_word, enter_interrupt, flag_zero,
  flag_negative, flag_carry, flag_overflow, vec_nmi,
}
use dendy.Cpu.Addr.{Operand, AddrMode}
use dendy.Cpu.Official.{add_carry, sub_carry, compare_with, jsr, rts, rti}
use dendy.Cpu.Tick.{decode, run_instruction}
use dendy.Cpu.Flags.{get_flag-set_flag, get_flag-set_zn}
use dendy.Cpu.Arith.{
  SumOverflows, DifferenceOverflows, add_carry_lem, sub_carry_lem, compare_with_lem,
}
use dendy.Cpu.Stack.{StackRam, pop_word-push_word, jsr-rts}
use dendy.Cpu.Interrupts.{rti-enter_interrupt}
use dendy.Cpu.Table.{Decodes, is_jam, decode-Decodes}
use dendy.Cpu.State
use dendy.Cpu.SaveState.{save_state, load_state, load_state-save_state_cpu}
use dendy.Binario.RoundTrip.{Reads}
use dendy.Cpu.Timing.{ticks, ticks-wait, run_instruction_panics}

-- 64 KB of storage.
abbrev flat : Memory (ℕ → ℕ)
flat = record { read = λ m a. (m a, m); write = λ m a v b. if a == b then v else m b }

abbrev flat_ram : StackRam flat
flat_ram = record {
  peek = λ m a. m a;
  reads = λ m a _ _. refl;
  keeps = λ m a b _ _. refl;
  writes = λ m a b v _ _ _ _. refl;
}

-- A program of `ADC #$50` and an opcode without instruction; the rest is NOP.
abbrev storage : ℕ → ℕ
storage a =
    if a == 0x8000 then 0x69 else if a == 0x8001 then 0x50 else if a == 0x8002 then 0x02 else 0xEA

abbrev busy : Cpu
busy = record {
  x = 1;
  y = 2;
  a = 0x50;
  p = 0x25;
  sp = 0xFD;
  pc = 0x8000;
  cycles = 7;
  halt = 3;
  interrupt = 0;
}

abbrev at_x : Operand
at_x = record { mode = AddrMode.abs; addr = 0x9000; page_cross = false }

get_flag-set_flag_example : get_flag (set_flag busy (2 ^ 6) true) (2 ^ 6) ≡ true
get_flag-set_flag_example =
    get_flag-set_flag busy 6 6 true (omega arith) (omega arith) (omega arith)

get_flag-set_zn_example : get_flag (set_zn busy 0x90) (2 ^ 7) ≡ true
get_flag-set_zn_example = get_flag-set_zn busy 0x90 7 (omega arith) (omega arith) (omega arith)

-- 0x50 + 0x50 + 1 overflows into the negative numbers.
add_carry_lem_example :
    let out = add_carry busy 0x50 in
    (out.a + 256 * carried out ≡ busy.a + 0x50 + carried busy)
    × ((get_flag out flag_zero ≡ true) ↔ (out.a ≡ 0))
    × ((get_flag out flag_negative ≡ true) ↔ (128 ≤ out.a))
    × ((get_flag out flag_overflow ≡ true) ↔ SumOverflows busy.a 0x50 (carried busy))
add_carry_lem_example = add_carry_lem busy 0x50 (omega arith) (omega arith) (omega arith)

sub_carry_lem_example :
    let out = sub_carry busy 0xB0 in
    (out.a + 0xB0 + (1 - carried busy) ≡ busy.a + 256 * (1 - carried out))
    × ((get_flag out flag_zero ≡ true) ↔ (out.a ≡ 0))
    × ((get_flag out flag_negative ≡ true) ↔ (128 ≤ out.a))
    × ((get_flag out flag_overflow ≡ true) ↔ DifferenceOverflows busy.a 0xB0 (1 - carried busy))
sub_carry_lem_example = sub_carry_lem busy 0xB0 (omega arith) (omega arith) (omega arith)

compare_with_lem_example :
    let out = compare_with busy 0x50 0x51 in
    ((get_flag out flag_carry ≡ true) ↔ (0x51 ≤ 0x50))
    × ((get_flag out flag_zero ≡ true) ↔ (◌≡◌ {A = ℕ} 0x50 0x51))
    × (get_flag out flag_overflow ≡ get_flag busy flag_overflow)
    × (out.a ≡ busy.a)
    × (out.pc ≡ busy.pc)
compare_with_lem_example = compare_with_lem busy 0x50 0x51 (omega arith) (omega arith) (omega arith)

-- The push wraps round the page: at stack pointer 0 the second byte goes to 0x01FF.
abbrev lowest : Cpu
lowest = record busy { sp = 0 }

pop_word-push_word_example :
    let (cpu1, m1) = push_word flat lowest storage 0x1234 in
    pop_word flat cpu1 m1 ≡ (0x1234, lowest, m1)
pop_word-push_word_example =
    pop_word-push_word flat flat_ram lowest storage 0x1234 (omega arith) (omega arith)

jsr-rts_example : let (cpu1, m1) = jsr flat busy storage at_x in rts flat cpu1 m1 at_x ≡ (busy, m1)
jsr-rts_example = jsr-rts flat flat_ram busy storage at_x at_x (omega arith) (omega arith)

rti-enter_interrupt_example :
    let (cpu1, m1) = enter_interrupt flat vec_nmi busy storage in
    let out = (rti flat cpu1 m1 at_x).0 in
    (out ≡ record busy { p = out.p; halt = busy.halt + 7 })
    × (get_flag out (2 ^ 0) ≡ get_flag busy (2 ^ 0))
rti-enter_interrupt_example =
    rti-enter_interrupt flat flat_ram vec_nmi busy storage at_x 0 (omega arith) (omega arith)
      (omega arith) (omega arith) (omega arith) (omega arith)

decode-Decodes_example : Decodes 0xF2 (decode 0xF2)
decode-Decodes_example = decode-Decodes 0xF2 (omega arith)

ticks-wait_example :
    ticks flat 3 busy storage ≡ some (record busy { cycles = u64 10; halt = 0 }, storage, 1)
ticks-wait_example = ticks-wait flat 2 busy storage (omega arith) (omega arith)

run_instruction_panics_example :
    (run_instruction flat (record busy { pc = 0x8002 }) storage ≡ none) ↔ (is_jam 0x02 ≡ true)
run_instruction_panics_example =
    run_instruction_panics flat (record busy { pc = 0x8002 }) storage (omega arith)

load_state-save_state_cpu_example :
    Reads
      (load_state State.new (record {
        unread = save_state busy [] ++ (77 ∷ []);
        buf = 9 ∷ 9 ∷ 9 ∷ 9 ∷ 9 ∷ 9 ∷ 9 ∷ 9 ∷ [];
      }))
      busy
      (77 ∷ [])
load_state-save_state_cpu_example =
    load_state-save_state_cpu busy State.new (77 ∷ []) (9 ∷ 9 ∷ 9 ∷ 9 ∷ 9 ∷ 9 ∷ 9 ∷ 9 ∷ [])
      (record {
        a = omega arith;
        x = omega arith;
        y = omega arith;
        p = omega arith;
        sp = omega arith;
        pc = omega arith;
        cycles = omega arith;
        interrupt = omega arith;
        halt = omega arith;
      })
      refl
