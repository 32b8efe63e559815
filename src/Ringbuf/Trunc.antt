-- ===== src/Ringbuf/Trunc.antt =====
-- `TruncFront`, `TruncBack` and `Clear`: the blanking loops touch no slot that is kept.
use dendy.Prelude.{
  ℕ, zero, suc, ◌+◌, ◌-◌, ◌%◌, ◌≤◌, ◌<◌, ◌≡◌, ◌≢◌, refl, sym, ap, ◌∙◌, arith, ltb, false, some,
  Option, List, length, get_or, set, take, drop, tabulate, length-set, get_or-set_ne, tabulate_ext,
  drop-tabulate, take-tabulate, pos,
}
use native.Mathlib.Nat.{mod-eq_of_lt}
use dendy.Ringbuf.{Buffer, mod_len_back, blank_front, blank_back, trunc_front, trunc_back, clear}
use dendy.Ringbuf.Valid.{
  IsValid, item_at, contents, mod_len-some, store-some, slot_ne, slot_lt, slot_shift, mod-cases,
}
use dendy.Ringbuf.Push.{Holds}

-- Counting back from the tail meets the slots of the newest items.
pub back_slot :
    (h l i c : ℕ) → h < c → l ≤ c → i < l → ((h + l) % c + c - (1 + i)) % c ≡ (h + (l - 1 - i)) % c
back_slot h l i c hc lc il = ground (
  arith,
  mod-cases (h + l) c (omega arith),
  mod-cases ((h + l) % c + c - (1 + i)) c (omega (arith, slot_lt (h + l) c (omega arith))),
  mod-cases (h + (l - 1 - i)) c (omega arith),
)

module _ {ℓ} {T : Type ℓ} where
  -- The loop has run to its end, and slot `j` keeps its item if the loop names it in no round.
  record Blanked (slot : ℕ → ℕ) (i left : ℕ) (items : List T) (result : Option (List T))
      : Type ℓ where
    out : List T
    returns : result ≡ some out
    same_length : length out ≡ length items
    kept :
        (j : ℕ) (d : T)
        → ((k : ℕ) → i ≤ k → k < i + left → slot k ≢ j)
        → get_or out j d ≡ get_or items j d

  Blanked-set :
      (slot : ℕ → ℕ) (i left : ℕ) (items : List T) (v : T) {result : Option (List T)}
      → Blanked slot (i + 1) left (set items (slot i) v) result
      → Blanked slot i (suc left) items result
  Blanked-set slot i left items v b = record {
    out = b.out;
    returns = b.returns;
    same_length = b.same_length ∙ length-set items (slot i) v;
    kept = λ j d apart.
        b.kept j d (λ k p q. apart k (omega arith) (omega arith))
        ∙ get_or-set_ne items (slot i) j v d (apart i (omega arith) (omega arith));
  }

  blank_front-Blanked :
      (e : T) (head c left i : ℕ) (items : List T)
      → length items ≡ c
      → 0 < c
      → Blanked (λ k. (head + k) % c) i left items (blank_front e head left i items)
  unfolding blank_front
  blank_front-Blanked e head c zero i items s h = record {
    out = items;
    returns = refl;
    same_length = refl;
    kept = λ j d apart. refl;
  }
  blank_front-Blanked e head c (suc left) i items s h =
      rw
        (
          mod_len-some items (head + i) c s h,
          store-some items ((head + i) % c) e (rw s (slot_lt (head + i) c h)),
        )
        (Blanked-set (λ k. (head + k) % c) i left items e
          (blank_front-Blanked e head c left (i + 1) (set items ((head + i) % c) e)
            (length-set items ((head + i) % c) e ∙ s) h))

  pub mod_len_back-some :
      (items : List T) (t k c : ℕ)
      → length items ≡ c
      → 0 < c
      → k ≤ t + c
      → mod_len_back items t k ≡ some ((t + c - k) % c)
  mod_len_back-some items t k c s h le = ground arith

  blank_back-Blanked :
      (e : T) (t c left i : ℕ) (items : List T)
      → length items ≡ c
      → 0 < c
      → i + left ≤ c
      → Blanked (λ k. (t + c - (1 + k)) % c) i left items (blank_back e t left i items)
  unfolding blank_back
  blank_back-Blanked e t c zero i items s h le = record {
    out = items;
    returns = refl;
    same_length = refl;
    kept = λ j d apart. refl;
  }
  blank_back-Blanked e t c (suc left) i items s h le =
      rw
        (
          mod_len_back-some items t (1 + i) c s h (omega arith),
          store-some items ((t + c - (1 + i)) % c) e (rw s (slot_lt (t + c - (1 + i)) c h)),
        )
        (Blanked-set (λ k. (t + c - (1 + k)) % c) i left items e
          (blank_back-Blanked e t c left (i + 1) (set items ((t + c - (1 + i)) % c) e)
            (length-set items ((t + c - (1 + i)) % c) e ∙ s) h (omega arith)))

  -- `TruncFront(n)` drops the `n` oldest items.
  pub trunc_front-Holds :
      (q : Buffer T) (n : ℕ)
      → IsValid q
      → n ≤ q.len
      → Holds q (trunc_front q (pos n)) (drop n (contents q))
  unfolding trunc_front
  trunc_front-Holds q n v le =
      let c = q.capacity in
      let b = blank_front-Blanked q.empty_value q.head c n 0 q.items v.sized v.roomy in
      let sized : length b.out ≡ c = b.same_length ∙ v.sized in
      let head' = (q.head + n) % c in
      let out : Buffer T = record q {
        items = b.out;
        len = q.len - n;
        head = head';
        tail = (head' + (q.len - n)) % c;
      } in
      record {
        out = out;
        returns =
            let enough : ltb q.len n ≡ false = ground arith in
            rw (
              enough,
              b.returns,
              mod_len-some b.out (q.head + n) c sized v.roomy,
              mod_len-some b.out (head' + (q.len - n)) c sized v.roomy,
            );
        valid = record {
          sized = sized;
          roomy = v.roomy;
          fits = omega (arith, v.fits);
          head_in = slot_lt (q.head + n) c v.roomy;
          tail_at = refl;
        };
        same_capacity = refl;
        same_empty = refl;
        holds =
            tabulate_ext (q.len - n) (item_at out) (λ i. item_at q (n + i))
              (λ i p. rw (slot_shift q.head n i c) (
                b.kept ((q.head + (n + i)) % c) q.empty_value (λ k _ kn.
                  slot_ne q.head k (n + i) c v.head_in (omega arith) (omega (arith, v.fits)))))
            ∙ sym (drop-tabulate n q.len (item_at q));
      }

  -- `TruncBack(n)` drops the `n` newest items.
  pub trunc_back-Holds :
      (q : Buffer T) (n : ℕ)
      → IsValid q
      → n ≤ q.len
      → Holds q (trunc_back q (pos n)) (take (q.len - n) (contents q))
  unfolding trunc_back
  trunc_back-Holds q n v le =
      let c = q.capacity in
      let b =
        blank_back-Blanked q.empty_value q.tail c n 0 q.items v.sized v.roomy
          (omega (arith, v.fits)) in
      let sized : length b.out ≡ c = b.same_length ∙ v.sized in
      let out : Buffer T = record q {
        items = b.out;
        len = q.len - n;
        tail = (q.head + (q.len - n)) % c;
      } in
      record {
        out = out;
        returns =
            let enough : ltb q.len n ≡ false = ground arith in
            rw (enough, b.returns, mod_len-some b.out (q.head + (q.len - n)) c sized v.roomy);
        valid = record {
          sized = sized;
          roomy = v.roomy;
          fits = omega (arith, v.fits);
          head_in = v.head_in;
          tail_at = refl;
        };
        same_capacity = refl;
        same_empty = refl;
        holds =
            tabulate_ext (q.len - n) (item_at out) (item_at q) (λ i p.
              b.kept ((q.head + i) % c) q.empty_value (λ k _ kn e.
                slot_ne q.head i (q.len - 1 - k) c v.head_in (omega arith) (omega (arith, v.fits)) (
                  sym e
                  ∙ ap (λ t. (t + c - (1 + k)) % c) v.tail_at
                  ∙ back_slot q.head q.len k c v.head_in v.fits (omega arith))))
            ∙ sym (take-tabulate (q.len - n) q.len (item_at q) (omega arith));
      }

  -- `Clear` empties the buffer.
  pub clear-Holds : (q : Buffer T) → IsValid q → Holds q (clear q) (drop q.len (contents q))
  unfolding clear
  clear-Holds q v =
      let c = q.capacity in
      let b = blank_front-Blanked q.empty_value q.head c q.len 0 q.items v.sized v.roomy in
      record {
        out = record q { items = b.out; head = 0; tail = 0; len = 0 };
        returns = rw b.returns;
        valid = record {
          sized = b.same_length ∙ v.sized;
          roomy = v.roomy;
          fits = omega arith;
          head_in = v.roomy;
          tail_at = omega (arith, mod-eq_of_lt {n = 0 + 0} {m = c} (omega arith));
        };
        same_capacity = refl;
        same_empty = refl;
        holds =
            ap (λ n. tabulate n (λ i. item_at q (q.len + i))) {x = 0} (omega arith)
            ∙ sym (drop-tabulate q.len q.len (item_at q));
      }
