-- ===== src/Input/Zapper.antt =====
-- input/zapper.go, the light gun.
use dendy.Prelude.{
  ℕ, ◌<◌, ◌≡◌, refl, ◌↔◌, arith, bit_and, bit_or, Bool, Bool-cases, inl, inr, true, false, not, ltb,
  if◌then◌else◌,
}

pub record Zapper : Type 0 where
  pub light_detected : Bool
  pub trigger_pressed : Bool

unfoldable pub new : Zapper
new = record { light_detected = false; trigger_pressed = false }

unfoldable pub reset : Zapper → Zapper
reset z = record { light_detected = false; trigger_pressed = false }

unfoldable pub read : Zapper → ℕ
read z =
    let value = if z.trigger_pressed then bit_or 0 16 else 0 in
    if not z.light_detected then bit_or value 8 else value

unfoldable pub write : Zapper → ℕ → Zapper
write z value = z

unfoldable pub update : Zapper → ℕ → Bool → Zapper
update z brightness trigger = record {
  light_detected = ltb 64 brightness;
  trigger_pressed = trigger;
}

unfoldable pub vblank : Zapper → Zapper
vblank z = record z { light_detected = false }

-- After an update bit 4 tells the trigger, and bit 3 is clear exactly when the screen was bright;
-- a write in between changes nothing, and after a vertical blank the gun sees no light.
pub read-update :
    (z : Zapper) (brightness value : ℕ) (trigger : Bool)
    → let aimed = write (update z brightness trigger) value in
      ((bit_and (read aimed) 16 ≡ 0) ↔ (trigger ≡ false))
      × ((bit_and (read aimed) 8 ≡ 0) ↔ (64 < brightness))
      × (bit_and (read (vblank aimed)) 8 ≡ 8)
      × (bit_and (read (vblank aimed)) 16 ≡ bit_and (read aimed) 16)
unfolding read update write vblank
read-update z brightness value true = elim (Bool-cases (ltb 64 brightness)) [
  | inl e ↦
      rw e ((λ h. absurd (omega arith), λ h. cc), (λ h. (ground arith), λ h. refl), refl, refl)
  | inr e ↦ rw e (
    (λ h. absurd (omega arith), λ h. cc),
    (λ h. absurd (omega arith), λ h. absurd (ground arith)),
    refl,
    refl,
  )
]
read-update z brightness value false = elim (Bool-cases (ltb 64 brightness)) [
  | inl e ↦ rw e ((λ h. refl, λ h. refl), (λ h. (ground arith), λ h. refl), refl, refl)
  | inr e ↦
      rw e (
        (λ h. refl, λ h. refl),
        (λ h. absurd (omega arith), λ h. absurd (ground arith)),
        refl,
        refl,
      )
]
