-- ===== src/Cpu/Timing.antt =====
-- The wait after an instruction, and the opcodes on which the processor stops.
use dendy.Prelude.{
  ℕ, zero, suc, ◌+◌, ◌-◌, ◌^◌, ◌<◌, ◌≡◌, refl, ◌∙◌, ap, ◌↔◌, arith, u64, Bool, true, false, ◌==◌,
  ltb, if◌then◌else◌, Option, none, some,
}
use dendy.Cpu.State.{Memory, Cpu, fetch_opcode}
use dendy.Cpu.Addr.{fetch_operand}
use dendy.Cpu.Tick.{exec, run_instruction, tick}
use dendy.Cpu.Table.{is_jam, jams, row, decode-Decodes}

-- The number of instructions that have ended, after a tick.
abbrev pub count : Bool → ℕ → ℕ
count done n = if done then suc n else n

last_count : (h k : ℕ) → k < h → count (h - suc k == 0) 0 ≡ (if suc k == h then 1 else 0)
last_count h k below = ground arith

shifted_count :
    (h k : ℕ)
    → suc k < h
    → ◌≡◌ {A = ℕ} (if suc k == h - 1 then 1 else 0) (if suc (suc k) == h then 1 else 0)
shifted_count h k below = ground arith

later_cycles : (c k : ℕ) → u64 (u64 (c + 1) + suc k) ≡ u64 (c + suc (suc k))
later_cycles c k = omega arith

module _ {M : Type 0} (mem : Memory M) where
  -- So many ticks, and how many of them returned true.
  unfoldable pub ticks : ℕ → Cpu → M → Option (Cpu × M × ℕ)
  ticks zero cpu m = some (cpu, m, 0)
  ticks (suc k) cpu m = elim (tick mem cpu m) [
    | none ↦ none
    | some (cpu1, m1, done) ↦ elim (ticks k cpu1 m1) [
      | none ↦ none
      | some (cpu2, m2, n) ↦ some (cpu2, m2, count done n)
    ]
  ]

  tick_waits :
      (cpu : Cpu) (m : M)
      → 0 < cpu.halt
      → tick mem cpu m
        ≡ some (
          record cpu { cycles = u64 (cpu.cycles + 1); halt = cpu.halt - 1 },
          m,
          cpu.halt - 1 == 0,
        )
  unfolding tick
  tick_waits cpu m h = let waits : ltb 0 cpu.halt ≡ true = ground arith in rw (waits, if◌then◌else◌)

  -- For a processor that waits, up to the end of its wait and with a 64-bit cycle counter: the
  -- ticks touch neither memory nor registers, each counts one cycle and takes one off the wait,
  -- and only the one that ends the wait returns true.
  pub ticks-wait :
      (k : ℕ) (cpu : Cpu) (m : M)
      → k < cpu.halt
      → cpu.cycles < 2 ^ 64
      → ticks (suc k) cpu m
        ≡ some (
          record cpu { cycles = u64 (cpu.cycles + suc k); halt = cpu.halt - suc k },
          m,
          if suc k == cpu.halt then 1 else 0,
        )
  unfolding ticks
  ticks-wait zero cpu m h hc =
      let cpu1 = record cpu { cycles = u64 (cpu.cycles + 1); halt = cpu.halt - 1 } in
      rw (tick_waits cpu m h, ticks) (ap (λ n. some (cpu1, m, n)) (last_count cpu.halt 0 h))
  ticks-wait (suc k) cpu m h hc =
      let cpu1 = record cpu { cycles = u64 (cpu.cycles + 1); halt = cpu.halt - 1 } in
      let waited : ℕ → ℕ → ℕ → Option (Cpu × M × ℕ) =
        λ c t n. some (record cpu { cycles = c; halt = t }, m, n) in
      let before : ℕ = if suc k == cpu.halt - 1 then 1 else 0 in
      let earlier : (cpu.halt - 1 == 0) ≡ false = ground arith in
      rw
        (
          tick_waits cpu m (omega arith),
          ticks,
          ticks-wait k cpu1 m (omega arith) (omega arith),
          earlier,
        )
        (ap (λ c. waited c (cpu.halt - 1 - suc k) before) (later_cycles cpu.cycles k)
          ∙ ap (λ t. waited (u64 (cpu.cycles + suc (suc k))) t before) (omega arith)
          ∙ ap (waited (u64 (cpu.cycles + suc (suc k))) (cpu.halt - suc (suc k)))
              (shifted_count cpu.halt k h))

  -- On a memory that reads as a byte: the code panics exactly on the twelve opcodes on which the
  -- table is empty.
  pub run_instruction_panics :
      (cpu : Cpu) (m : M)
      → (mem.read m cpu.pc).0 < 256
      → (run_instruction mem cpu m ≡ none) ↔ (is_jam (mem.read m cpu.pc).0 ≡ true)
  unfolding run_instruction fetch_opcode
  run_instruction_panics cpu m h = elim (decode-Decodes (mem.read m cpu.pc).0 h) [
    | jams jam e ↦ (λ _. jam, λ _. rw (e, run_instruction) refl)
    | row i no_jam e _ _ _ _ ↦
        let (arg, cpu2, m2) =
          fetch_operand mem (fetch_opcode mem cpu m).1 (fetch_opcode mem cpu m).2 i.mode in
        let (cpu3, m3) = exec mem i.handler cpu2 m2 arg in
        let runs : run_instruction mem cpu m
            ≡ some (record cpu3 { halt = cpu3.halt + (i.cycles - 1) }, m3) =
          rw (e, run_instruction) refl in
        (λ stops. cc, λ jam. cc)
  ]
