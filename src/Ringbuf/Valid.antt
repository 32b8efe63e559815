-- ===== src/Ringbuf/Valid.antt =====
-- The representation invariant of `Buffer`, the sequence that a buffer holds, and the arithmetic
-- of its slots.
use dendy.Prelude.{
  ℕ, ◌+◌, ◌-◌, ◌%◌, ◌≤◌, ◌<◌, ◌≡◌, ◌≢◌, refl, sym, ap, ◌∙◌, ◌⊎◌, inl, inr, arith, ltb, Bool-cases,
  List, [], length, get_or, set, tabulate, length-replicate, length-tabulate, some,
}
use native.Mathlib.Nat.{mod-eq_of_lt, mod-eq-sub-mod, mod-lt, mod-add-mod}
use native.Mathlib.Decide.{dec_lt}
use dendy.Ringbuf.{Buffer, mod_len, store, new}

pub record IsValid {ℓ} {T : Type ℓ} (q : Buffer T) : Type 0 where
  pub sized : length q.items ≡ q.capacity
  pub roomy : 0 < q.capacity
  pub fits : q.len ≤ q.capacity
  pub head_in : q.head < q.capacity
  pub tail_at : q.tail ≡ (q.head + q.len) % q.capacity

module _ {ℓ} {T : Type ℓ} where
  -- The item `i` places behind the head.
  abbrev pub item_at : Buffer T → ℕ → T
  item_at q i = get_or q.items ((q.head + i) % q.capacity) q.empty_value

  -- The items from the oldest to the newest.
  abbrev pub contents : Buffer T → List T
  contents q = tabulate q.len (item_at q)

  pub length-contents : (q : Buffer T) → length (contents q) ≡ q.len
  length-contents q = length-tabulate q.len (item_at q)

  -- A new buffer of positive capacity is valid.
  pub new-IsValid : (z : T) (capacity : ℕ) → 0 < capacity → IsValid (new z capacity)
  unfolding new
  new-IsValid z capacity h = record {
    sized = length-replicate capacity z;
    roomy = h;
    fits = omega arith;
    head_in = h;
    tail_at = omega (arith, mod-eq_of_lt {n = 0 + 0} {m = capacity} (omega arith));
  }

  pub contents-new : (z : T) (capacity : ℕ) → contents (new z capacity) ≡ []
  unfolding new
  contents-new z capacity = refl

  pub mod_len-some :
      (items : List T) (x c : ℕ) → length items ≡ c → 0 < c → mod_len items x ≡ some (x % c)
  mod_len-some items x c e h = ground arith

  pub store-some :
      (items : List T) (i : ℕ) (v : T) → i < length items → store items i v ≡ some (set items i v)
  store-some items i v h = ground arith

-- Below twice the capacity the remainder is one subtraction.
pub mod-cases : (x c : ℕ) → x < c + c → ((x < c) × (x % c ≡ x)) ⊎ ((c ≤ x) × (x % c ≡ x - c))
mod-cases x c h = elim (Bool-cases (ltb x c)) [
  | inl p ↦ let below : x < c = ground arith in inl (below, mod-eq_of_lt below)
  | inr p ↦
      let above : c ≤ x = ground arith in
      inr (above, mod-eq-sub-mod above ∙ mod-eq_of_lt (omega arith))
]

-- Two places less than a capacity apart are two slots.
pub slot_ne : (h i j c : ℕ) → h < c → i < j → j < c → (h + i) % c ≢ (h + j) % c
slot_ne h i j c hc ij jc e =
    ground (arith, mod-cases (h + i) c (omega arith), mod-cases (h + j) c (omega arith))

pub slot_ne_of_ne : (h i j c : ℕ) → h < c → i < c → j < c → i ≢ j → (h + i) % c ≢ (h + j) % c
slot_ne_of_ne h i j c hc ic jc ne e = elim (dec_lt i j) [
  | yes p ↦ slot_ne h i j c hc p jc e
  | no p ↦ slot_ne h j i c hc (omega arith) ic (sym e)
]

pub slot_lt : (x c : ℕ) → 0 < c → x % c < c
slot_lt x c h = mod-lt x h

-- Moving the head by `n` places shifts every slot.
pub slot_shift : (h n i c : ℕ) → ((h + n) % c + i) % c ≡ (h + (n + i)) % c
slot_shift h n i c = mod-add-mod (h + n) c i ∙ ap (λ (t : ℕ). t % c) (omega arith)
