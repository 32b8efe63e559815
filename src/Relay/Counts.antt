-- ===== src/Relay/Counts.antt =====
-- The limiter of relay/ip_limiter.go against a count for each key.
use dendy.Prelude.{
  ℕ, zero, suc, ◌+◌, ◌-◌, ◌≤◌, ◌≡◌, refl, sym, ap, ap₂, ◌∙◌, arith, ltb, ◌==◌, ◌↔◌, inl, inr,
  if◌then◌else◌, Bool, true, false, Bool-cases, Option, none, some, Option-cases, List, [], ◌∷◌,
}
use mathlib.Core.Option.{some-ne-none}
use dendy.Relay.IpLimiter
use dendy.Relay.IpLimiter.{IpLimiter, new, count_or_zero, count, store}

pub data Call (K : Type 0) : Type 0 where
  acquire : K → Call K
  release : K → Call K

module _ {K : Type 0} (same : K → K → Bool) where
  -- The answers of the calls of Acquire, in their order, and the limiter after all calls.
  unfoldable pub run : List (Call K) → IpLimiter K → List Bool × IpLimiter K
  run [] l = ([], l)
  run (Call.acquire key ∷ calls) l =
      let (ok, next) = IpLimiter.acquire same l key in
      let (answers, last) = run calls next in (ok ∷ answers, last)
  run (Call.release key ∷ calls) l = run calls (IpLimiter.release same l key)

  abbrev changed : (K → ℕ) → K → ℕ → K → ℕ
  changed counts key n k = if same k key then n else counts k

  abbrev lowered : (K → ℕ) → K → K → ℕ
  lowered counts key = if counts key == 0 then counts else changed counts key (counts key - 1)

  -- The same with a count for every key: it goes up by one while it is below the maximum, and down by
  -- one while it is above zero.
  unfoldable pub run_counts : ℕ → List (Call K) → (K → ℕ) → List Bool × (K → ℕ)
  run_counts max [] counts = ([], counts)
  run_counts max (Call.acquire key ∷ calls) counts =
      let free = ltb (counts key) max in
      let next = if free then changed counts key (counts key + 1) else counts in
      let (answers, last) = run_counts max calls next in (free ∷ answers, last)
  run_counts max (Call.release key ∷ calls) counts = run_counts max calls (lowered counts key)

-- A limiter holds these counts: an entry for each count above zero and for no other.
pub record Holds {K : Type 0} (max : ℕ) (l : IpLimiter K) (counts : K → ℕ) : Type 0 where
  pub limit : l.max ≡ max
  pub entry : (k : K) → count l k ≡ counts k
  pub bounded : (k : K) → counts k ≤ max
  pub present : (k : K) → (l.active k ≡ none) ↔ (counts k ≡ 0)

active_above : (c : ℕ) (o : Option ℕ) (n : ℕ) → o ≡ some n → (c ≡ 0 → o ≡ none) → (c == 0) ≡ false
active_above zero o n e p = absurd (some-ne-none n (sym e ∙ p refl))
active_above (suc c) o n e p = ground arith

module _ {K : Type 0} (same : K → K → Bool) where
  store-Holds :
      (max : ℕ) (l : IpLimiter K) (counts : K → ℕ) (key : K) (o : Option ℕ) (n : ℕ)
      → Holds max l counts
      → count_or_zero o ≡ n
      → n ≤ max
      → ((o ≡ none) ↔ (n ≡ 0))
      → Holds max (store same l key o) (changed same counts key n)
  store-Holds max l counts key o n h e b p = record {
    limit = h.limit;
    entry = λ k. elim (Bool-cases (same k key)) [ inl t ↦ rw t e | inr f ↦ rw f (h.entry k) ];
    bounded = λ k. elim (Bool-cases (same k key)) [ inl t ↦ rw t b | inr f ↦ rw f (h.bounded k) ];
    present = λ k. elim (Bool-cases (same k key)) [ inl t ↦ rw t p | inr f ↦ rw f (h.present k) ];
  }

  acquire-Holds :
      (max : ℕ) (l : IpLimiter K) (counts : K → ℕ) (key : K)
      → Holds max l counts
      → let free = ltb (counts key) max in
        ((IpLimiter.acquire same l key).0 ≡ free)
        × Holds max
            (IpLimiter.acquire same l key).1
            (if free then changed same counts key (counts key + 1) else counts)
  unfolding IpLimiter.acquire
  acquire-Holds max l counts key h =
      let same_test : ltb (count l key) l.max ≡ ltb (counts key) max =
        ap₂ ltb (h.entry key) h.limit in
      elim (Bool-cases (ltb (counts key) max)) [
        | inl t ↦
            rw (same_test, t)
              (
                refl,
                store-Holds max l counts key (some (count l key + 1)) (counts key + 1) h
                    (ap (λ n. n + 1) (h.entry key)) (ground arith)
                    ((λ e. absurd (ground arith)), λ e. absurd (omega arith)),
              )
        | inr f ↦ rw (same_test, f) (refl, h)
      ]

  release-Holds :
      (max : ℕ) (l : IpLimiter K) (counts : K → ℕ) (key : K)
      → Holds max l counts
      → Holds max (IpLimiter.release same l key) (lowered same counts key)
  unfolding IpLimiter.release
  release-Holds max l counts key h =
      let small = h.bounded key in
      elim (Option-cases (l.active key)) [
        | inl e ↦
            let idle : (counts key == 0) ≡ true =
              let gone : counts key ≡ 0 = (h.present key).0 e in ground arith in
            rw (e, idle) h
        | inr (n, e) ↦
            let known : n ≡ counts key = sym (ap count_or_zero e) ∙ h.entry key in
            let busy : (counts key == 0) ≡ false =
              active_above (counts key) (l.active key) n e (h.present key).1 in
            elim (Bool-cases (n - 1 == 0)) [
              | inl z ↦
                  rw (e, z, busy)
                    (store-Holds max l counts key none (counts key - 1) h (ground arith)
                      (omega arith) ((λ t. ground arith), λ t. refl))
              | inr z ↦
                  rw (e, z, busy)
                    (store-Holds max l counts key (some (n - 1)) (counts key - 1) h (omega arith)
                      (omega arith) ((λ t. absurd (ground arith)), λ t. absurd (ground arith)))
            ]
      ]

  run-Holds :
      (max : ℕ) (calls : List (Call K)) (l : IpLimiter K) (counts : K → ℕ)
      → Holds max l counts
      → ((run same calls l).0 ≡ (run_counts same max calls counts).0)
        × Holds max (run same calls l).1 (run_counts same max calls counts).1
  unfolding run run_counts
  run-Holds max [] l counts h = (refl, h)
  run-Holds max (Call.acquire key ∷ calls) l counts h =
      let (answer, held) = acquire-Holds max l counts key h in
      let (answers, last) = run-Holds max calls _ _ held in (ap₂ ◌∷◌ answer answers, last)
  run-Holds max (Call.release key ∷ calls) l counts h =
      run-Holds max calls _ _ (release-Holds max l counts key h)

  -- From an empty limiter, whatever the sequence of calls, Acquire answers as the counts do: yes as
  -- long as fewer than the maximum are taken for the key. The limiter has the counts of all keys,
  -- none above the maximum, and an entry for the keys whose count is above zero and for no other.
  pub run_refines_counts :
      (max : ℕ) (calls : List (Call K))
      → ((run same calls (new max)).0 ≡ (run_counts same max calls (λ k. 0)).0)
        × Holds max (run same calls (new max)).1 (run_counts same max calls (λ k. 0)).1
  unfolding new
  run_refines_counts max calls =
      run-Holds max calls (new max) (λ k. 0)
        (record {
          limit = refl;
          entry = λ k. refl;
          bounded = λ k. omega arith;
          present = λ k. ((λ t. refl), λ t. refl);
        })
