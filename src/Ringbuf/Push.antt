-- ===== src/Ringbuf/Push.antt =====
-- `PushBack`: what the loop does to a valid buffer with room.
use dendy.Prelude.{
  ℕ, suc, ◌+◌, ◌%◌, ◌≤◌, ◌<◌, ◌≡◌, refl, sym, ap, ap₂, ◌∙◌, arith, ltb, false, none, some, Option,
  List, [], ◌∷◌, ◌++◌, length, set, tabulate, length-set, get_or-set_self, get_or-set_ne,
  tabulate_ext, tabulate_snoc,
}
use mathlib.Core.List.{append-nil, append_assoc}
use dendy.Ringbuf.{Buffer, push_loop, push_back}
use dendy.Ringbuf.Valid.{
  IsValid, item_at, contents, mod_len-some, store-some, slot_ne, slot_lt, slot_shift,
}

module _ {ℓ} {T : Type ℓ} where
  -- One round of the loop.
  abbrev pub pushed : Buffer T → T → Buffer T
  pushed q x = record q {
    items = set q.items q.tail x;
    tail = (q.tail + 1) % q.capacity;
    len = q.len + 1;
  }

  push_step :
      (q : Buffer T) (x : T) (xs : List T)
      → IsValid q
      → push_loop q (x ∷ xs) ≡ push_loop (pushed q x) xs
  unfolding push_loop
  push_step q x xs v = rw (
    store-some q.items q.tail x
        (rw (v.sized, v.tail_at) (slot_lt (q.head + q.len) q.capacity v.roomy)),
    mod_len-some (set q.items q.tail x) (q.tail + 1) q.capacity
        (length-set q.items q.tail x ∙ v.sized) v.roomy,
  )

  pub pushed-IsValid :
      (q : Buffer T) (x : T) → IsValid q → q.len < q.capacity → IsValid (pushed q x)
  pushed-IsValid q x v room = record {
    sized = length-set q.items q.tail x ∙ v.sized;
    roomy = v.roomy;
    fits = omega arith;
    head_in = v.head_in;
    tail_at = rw v.tail_at (slot_shift q.head q.len 1 q.capacity);
  }

  -- The new item comes behind the others, and moves none of them.
  pub contents-pushed :
      (q : Buffer T) (x : T)
      → IsValid q
      → q.len < q.capacity
      → contents (pushed q x) ≡ contents q ++ (x ∷ [])
  contents-pushed q x v room =
      ap (λ n. tabulate n (item_at (pushed q x))) {y = suc q.len} (omega arith)
      ∙ tabulate_snoc q.len (item_at (pushed q x))
      ∙ ap₂ (λ xs y. xs ++ (y ∷ [])) (tabulate_ext q.len (item_at (pushed q x)) (item_at q) old) new
    where
      old : (i : ℕ) → i < q.len → item_at (pushed q x) i ≡ item_at q i
      old i h =
          get_or-set_ne q.items q.tail ((q.head + i) % q.capacity) x q.empty_value
            (λ e. slot_ne q.head i q.len q.capacity v.head_in h room (sym e ∙ v.tail_at))

      new : item_at (pushed q x) q.len ≡ x
      new = rw (← v.tail_at) (
          get_or-set_self q.items q.tail x q.empty_value
            (rw (v.sized, v.tail_at) (slot_lt (q.head + q.len) q.capacity v.roomy)))

  -- What a call leaves behind: a valid buffer of the same capacity that holds `xs`.
  pub record Holds (q : Buffer T) (result : Option (Buffer T)) (xs : List T) : Type ℓ where
    pub out : Buffer T
    pub returns : result ≡ some out
    pub valid : IsValid out
    pub same_capacity : out.capacity ≡ q.capacity
    pub same_empty : out.empty_value ≡ q.empty_value
    pub holds : contents out ≡ xs

  push_loop-Holds :
      (xs : List T) (q : Buffer T)
      → IsValid q
      → q.len + length xs ≤ q.capacity
      → Holds q (push_loop q xs) (contents q ++ xs)
  unfolding push_loop
  push_loop-Holds [] q v room = record {
    out = q;
    returns = refl;
    valid = v;
    same_capacity = refl;
    same_empty = refl;
    holds = sym (append-nil (contents q));
  }
  push_loop-Holds (x ∷ xs) q v room =
      let fits : q.len < q.capacity = omega arith in
      let rest = push_loop-Holds xs (pushed q x) (pushed-IsValid q x v fits) (omega arith) in
      record {
        out = rest.out;
        returns = push_step q x xs v ∙ rest.returns;
        valid = rest.valid;
        same_capacity = rest.same_capacity;
        same_empty = rest.same_empty;
        holds =
            rest.holds
            ∙ ap (λ ys. ys ++ xs) (contents-pushed q x v fits)
            ∙ append_assoc (contents q) (x ∷ []) xs;
      }

  -- With room for all the items `PushBack` appends them in order.
  pub push_back-Holds :
      (q : Buffer T) (xs : List T)
      → IsValid q
      → q.len + length xs ≤ q.capacity
      → Holds q (push_back q xs) (contents q ++ xs)
  unfolding push_back
  push_back-Holds q xs v room =
      let below : ltb q.capacity (q.len + length xs) ≡ false = ground arith in
      rw below (push_loop-Holds xs q v room)

  -- Without it, it panics before it writes anything.
  pub push_back_panics :
      (q : Buffer T) (xs : List T) → q.capacity < q.len + length xs → push_back q xs ≡ none
  unfolding push_back
  push_back_panics q xs over = ground arith
