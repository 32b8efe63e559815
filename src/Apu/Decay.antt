-- ===== src/Apu/Decay.antt =====
-- The decay of apu/envelope.go.
use dendy.Prelude.{
  ℕ, zero, suc, ◌+◌, ◌-◌, ◌≤◌, ◌≡◌, refl, ap, ◌∙◌, arith, ltb, if◌then◌else◌, true, false,
  Bool-cases, inl, inr,
}
use dendy.Apu.Envelope.{Envelope, tick}

-- So many ticks.
unfoldable pub ticks : ℕ → Envelope → Envelope
ticks zero e = e
ticks (suc n) e = ticks n (tick e)

-- So many periods of the divider.
unfoldable pub periods : ℕ → Envelope → Envelope
periods zero e = e
periods (suc n) e = let last = periods n e in ticks (suc last.counter_load) last

-- The divider counts down.
divide :
    (n : ℕ) (e : Envelope)
    → e.start ≡ false
    → e.counter ≡ n
    → ticks (suc n) e ≡ tick (record e { counter = 0 })
unfolding ticks tick
divide zero e s c = ap (λ k. tick (record e { counter = k })) c
divide (suc n) e s c =
    let busy : ltb 0 e.counter ≡ true = ground arith in
    rw (s, busy) (divide n (record e { counter = e.counter - 1; start = false }) refl (omega arith))

-- The envelope at the begin of a period.
abbrev settled : Envelope → ℕ → Envelope
settled e volume = record e { start = false; counter = e.counter_load; volume = volume }

period : (e : Envelope) (v : ℕ) → ticks (suc e.counter_load) (settled e (suc v)) ≡ settled e v
unfolding tick
period e v =
    let up : ltb 0 (suc v) ≡ true = ground arith in
    divide e.counter_load (settled e (suc v)) refl refl
    ∙ rw up (ap (settled e) {x = suc v - 1} {y = v} (omega arith))

last_period :
    (e : Envelope)
    → ticks (suc e.counter_load) (settled e 0) ≡ settled e (if e.loop then 0x0F else 0)
unfolding tick
last_period e = elim (Bool-cases e.loop) [
  | inl l ↦ divide e.counter_load (settled e 0) refl refl ∙ rw l refl
  | inr l ↦ divide e.counter_load (settled e 0) refl refl ∙ rw l refl
]

decayed : (k v : ℕ) (e : Envelope) → periods k (settled e (k + v)) ≡ settled e v
unfolding periods
decayed zero v e = ap (settled e) {x = zero + v} {y = v} (omega arith)
decayed (suc k) v e =
    ap (λ t. periods (suc k) (settled e t)) {x = suc k + v} {y = k + suc v} (omega arith)
    ∙ ap (λ t. ticks (suc t.counter_load) t) (decayed k (suc v) e)
    ∙ period e v

-- A start sets the volume to 15, and every period of the divider, one tick longer than the value
-- loaded, takes one from it; the period at 0 sets it to 15 again in a loop and leaves it else.
pub ticks-start :
    (e : Envelope) (k : ℕ)
    → e.start ≡ true
    → k ≤ 15
    → (periods k (tick e) ≡ record e { start = false; counter = e.counter_load; volume = 15 - k })
      × (periods 16 (tick e) ≡ record e {
        start = false;
        counter = e.counter_load;
        volume = if e.loop then 0x0F else 0;
      })
unfolding tick periods
ticks-start e k s h = (first, second)
  where
    started : tick e ≡ settled e 15
    started = rw s refl

    first : periods k (tick e) ≡ settled e (15 - k)
    first =
        ap (periods k) started
        ∙ ap (λ t. periods k (settled e t)) {x = 15} {y = k + (15 - k)} (omega arith)
        ∙ decayed k (15 - k) e

    second : periods 16 (tick e) ≡ settled e (if e.loop then 0x0F else 0)
    second =
        ap (periods 16) started
        ∙ ap (λ t. ticks (suc t.counter_load) t) (decayed 15 0 e)
        ∙ last_period e
