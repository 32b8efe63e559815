-- ===== src/Ringbuf/Grow.antt =====
-- `Grow`: the items are copied to the front of the new storage, in order.
use dendy.Prelude.{
  ℕ, zero, suc, ◌+◌, ◌-◌, ◌%◌, ◌≤◌, ◌<◌, ◌≡◌, refl, sym, ap, ◌∙◌, arith, ltb, false, none, some,
  Option, List, length, get_or, set, replicate, length-set, length-replicate, get_or-set_self,
  get_or-set_ne, tabulate_ext, pos, [], ◌∷◌, ◌==◌, get_elem?-eq-get_or,
}
use native.Mathlib.Nat.{mod-eq_of_lt}
use native.Mathlib.Decide.{dec_lt}
use dendy.Ringbuf.{Buffer, grow_loop, grow, pop_front, push_back, push_loop}
use dendy.Ringbuf.Valid.{IsValid, item_at, contents, mod_len-some, store-some}
use dendy.Ringbuf.Access.{get_slot}

module _ {ℓ} {T : Type ℓ} where
  -- What the loop has done from `i` on: places `i` up to `i + left` hold the items, those before
  -- are as they were.
  record Copied (q : Buffer T) (i left : ℕ) (storage : List T) (result : Option (List T))
      : Type ℓ where
    out : List T
    returns : result ≡ some out
    same_length : length out ≡ length storage
    copied : (j : ℕ) (d : T) → i ≤ j → j < i + left → get_or out j d ≡ item_at q j
    before : (j : ℕ) (d : T) → j < i → get_or out j d ≡ get_or storage j d

  grow_loop-Copied :
      (q : Buffer T) (left i : ℕ) (storage : List T)
      → IsValid q
      → i + left ≤ length storage
      → Copied q i left storage (grow_loop q left i storage)
  unfolding grow_loop
  grow_loop-Copied q zero i storage v fits = record {
    out = storage;
    returns = refl;
    same_length = refl;
    copied = λ j d p r. absurd (omega arith);
    before = λ j d p. refl;
  }
  grow_loop-Copied q (suc left) i storage v fits =
      let rest =
        grow_loop-Copied q left (i + 1) (set storage i (item_at q i)) v
          (omega (arith, length-set storage i (item_at q i))) in
      rw
        (
          mod_len-some q.items (q.head + i) q.capacity v.sized v.roomy,
          get_slot q i v,
          store-some storage i (item_at q i) (omega arith),
        )
        (record {
          out = rest.out;
          returns = rest.returns;
          same_length = rest.same_length ∙ length-set storage i (item_at q i);
          copied = λ j d p r. elim (dec_lt i j) [
            | yes later ↦ rest.copied j d (omega arith) (omega arith)
            | no now ↦
                let e : i ≡ j = omega arith in
                rest.before j d (omega arith)
                ∙ ap (λ k. get_or (set storage i (item_at q i)) k d) (sym e)
                ∙ get_or-set_self storage i (item_at q i) d (omega arith)
                ∙ ap (item_at q) e
          ];
          before = λ j d p.
              rest.before j d (omega arith)
              ∙ get_or-set_ne storage i j (item_at q i) d (omega arith);
        })

  -- What `Grow` leaves: a valid buffer of the new capacity with the same contents.
  pub record Grows (q : Buffer T) (capacity : ℕ) (result : Option (Buffer T)) : Type ℓ where
    pub out : Buffer T
    pub returns : result ≡ some out
    pub valid : IsValid out
    pub new_capacity : out.capacity ≡ capacity
    pub holds : contents out ≡ contents q

  -- Growing a valid buffer to more than its length, and to no less than its capacity, leaves a
  -- valid buffer of the new capacity with the same contents.
  pub grow-Grows :
      (z : T) (q : Buffer T) (capacity : ℕ)
      → IsValid q
      → q.capacity ≤ capacity
      → q.len < capacity
      → Grows q capacity (grow z q (pos capacity))
  unfolding grow
  grow-Grows z q capacity v le room =
      let storage = replicate capacity z in
      let sized : length storage ≡ capacity = length-replicate capacity z in
      let c = grow_loop-Copied q q.len 0 storage v (omega (arith, sized)) in
      let out : Buffer T = record q {
        items = c.out;
        capacity = capacity;
        head = 0;
        tail = q.len;
      } in
      record {
        out = out;
        returns =
            let enough : ltb capacity q.capacity ≡ false = ground arith in rw (enough, c.returns);
        valid = record {
          sized = c.same_length ∙ sized;
          roomy = omega arith;
          fits = omega arith;
          head_in = omega arith;
          tail_at = omega (arith, mod-eq_of_lt {n = 0 + q.len} {m = capacity} (omega arith));
        };
        new_capacity = refl;
        holds = tabulate_ext q.len (item_at out) (item_at q) λ i p.
            ap (λ t. get_or c.out t q.empty_value) {y = i}
              (omega (arith, mod-eq_of_lt {n = 0 + i} {m = capacity} (omega arith)))
            ∙ c.copied i q.empty_value (omega arith) (omega arith);
      }

  push_past_end_panics :
      (q : Buffer T) (x : T)
      → length q.items ≤ q.tail
      → q.len < q.capacity
      → push_back q (x ∷ []) ≡ none
  unfolding push_back push_loop
  push_past_end_panics q x past room = ground arith

  -- `Grow`, a pop and a push on a full buffer that is grown to the capacity that it has.
  pub record GrowsPast (z : T) (q : Buffer T) (x : T) : Type ℓ where
    pub grown : Buffer T
    pub popped : T × Buffer T
    pub grows : grow z q (pos q.capacity) ≡ some grown
    pub past_end : grown.tail ≡ length grown.items
    pub pops : pop_front grown ≡ some popped
    pub room : popped.1.len < popped.1.capacity
    pub panics : push_back popped.1 (x ∷ []) ≡ none

  -- Growing a full valid buffer to the capacity that it has returns a buffer whose tail is one past
  -- its storage; a pop of that returns, and leaves a place free; the push of an item after the pop
  -- panics.
  pub grow_full-pop-push_panics :
      (z : T) (q : Buffer T) (x : T) → IsValid q → q.len ≡ q.capacity → GrowsPast z q x
  unfolding grow pop_front
  grow_full-pop-push_panics z q x v full =
      let capacity = q.capacity in
      let storage = replicate capacity z in
      let c = grow_loop-Copied q q.len 0 storage v (omega (arith, length-replicate capacity z)) in
      let sized : length c.out ≡ capacity = c.same_length ∙ length-replicate capacity z in
      let enough : ltb capacity q.capacity ≡ false = ground arith in
      let busy : (q.len == 0) ≡ false = ground (arith, v.roomy) in
      let blanked = set c.out 0 q.empty_value in
      let blanked_sized : length blanked ≡ capacity = length-set c.out 0 q.empty_value ∙ sized in
      let grown : Buffer T = record q {
        items = c.out;
        capacity = capacity;
        head = 0;
        tail = q.len;
      } in
      let popped : Buffer T = record grown {
        items = blanked;
        head = (0 + 1) % capacity;
        len = q.len - 1;
      } in
      record {
        grown = grown;
        popped = (get_or c.out 0 z, popped);
        grows = rw (enough, c.returns) refl;
        past_end = full ∙ sym sized;
        pops =
            rw
              (
                busy,
                get_elem?-eq-get_or c.out 0 z (rw sized v.roomy),
                store-some c.out 0 q.empty_value (rw sized v.roomy),
                mod_len-some blanked (0 + 1) capacity blanked_sized v.roomy,
              )
              refl;
        room = omega (arith, v.roomy);
        panics =
            push_past_end_panics popped x (rw blanked_sized (omega (arith, full)))
              (omega (arith, v.roomy));
      }
