-- ===== src/Ines/Scanlines.antt =====
-- The scanline counter of ines/mapper004.go.
use dendy.Prelude.{ℕ, zero, suc, ◌+◌, ◌-◌, ◌<◌, ◌≡◌, refl, ap, ◌∙◌, arith, ◌==◌, true, false}
use dendy.Ines.Mapper4.{Mapper4, scanline_tick, pending_irq}

-- So many scanlines.
unfoldable pub ticks : ℕ → Mapper4 → Mapper4
ticks zero m = m
ticks (suc n) m = ticks n (scanline_tick m)

-- Above zero the counter counts down.
count_down :
    (n left : ℕ) (m : Mapper4)
    → m.irq_counter ≡ n + suc left
    → ticks n m ≡ record m { irq_counter = suc left }
unfolding ticks scanline_tick
count_down zero left m e =
    ap (λ c. record m { irq_counter = c }) {x = m.irq_counter} {y = suc left} (omega arith)
count_down (suc n) left m e =
    let going : (m.irq_counter == 0) ≡ false = ground arith in
    let above : (m.irq_counter - 1 == 0) ≡ false = ground arith in
    rw (going, above)
      (count_down n left (record m { irq_counter = m.irq_counter - 1 }) (omega arith))

ticks_last : (n : ℕ) (m : Mapper4) → ticks (suc n) m ≡ scanline_tick (ticks n m)
unfolding ticks
ticks_last zero m = refl
ticks_last (suc n) m = ticks_last n (scanline_tick m)

-- From a counter at zero with a reload value above it, the interrupt is raised by scanline
-- `reload + 1` and by none before it, if it is enabled; after that scanline the mapper is as it was
-- at first, but for the interrupt, and the interrupt is taken once.
pub ticks-reload :
    (m : Mapper4) (reload n : ℕ)
    → m.irq_counter ≡ 0
    → m.irq_reload ≡ suc reload
    → n < suc reload
    → ((ticks (suc n) m).irq_pending ≡ m.irq_pending)
      × (ticks (suc (suc reload)) m ≡ record m { irq_pending = m.irq_enable })
      × (pending_irq (ticks (suc (suc reload)) m)
          ≡ (m.irq_enable, record m { irq_pending = false }))
unfolding ticks pending_irq scanline_tick
ticks-reload m reload n e r h = (early, last_tick, ap pending_irq last_tick)
  where
    loaded : scanline_tick m ≡ record m { irq_counter = suc reload }
    loaded =
        let idle : (m.irq_counter == 0) ≡ true = ground arith in
        rw idle (ap (λ c. record m { irq_counter = c }) r)

    early : (ticks (suc n) m).irq_pending ≡ m.irq_pending
    early =
        ap (λ t. (ticks n t).irq_pending) loaded
        ∙ ap (λ t. t.irq_pending)
            (count_down n (reload - n) (record m { irq_counter = suc reload }) (omega arith))

    last_tick : ticks (suc (suc reload)) m ≡ record m { irq_pending = m.irq_enable }
    last_tick =
        ap (ticks (suc reload)) loaded
        ∙ ticks_last reload (record m { irq_counter = suc reload })
        ∙ ap scanline_tick
            (count_down reload 0 (record m { irq_counter = suc reload }) (omega arith))
        ∙ ap (λ c. record m { irq_counter = c; irq_pending = m.irq_enable }) {x = 0}
            {y = m.irq_counter} (omega arith)
