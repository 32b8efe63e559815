-- ===== src/Ringbuf/Access.antt =====
-- The calls on single items, and `Grow`.
use dendy.Prelude.{
  ℕ, suc, ◌+◌, ◌-◌, ◌%◌, ◌<◌, ◌≡◌, refl, sym, ap, ◌∙◌, arith, leb, ◌==◌, true, false, some, Option,
  [], ◌∷◌, ◌++◌, length, get_elem?, get_or, set, tabulate, length-set, get_elem?-eq-get_or,
  get_or-set_self, get_or-set_ne, tabulate_ext, tabulate_snoc, get_elem?-tabulate, set-tabulate,
  pos, if◌then◌else◌,
}
use native.Mathlib.Nat.{mod-eq_of_lt}
use native.Mathlib.Decide.{ℕ_discrete}
use dendy.Ringbuf.{Buffer, mod_len_back, pop_front, pop_back, front, back, at, set_at}
use dendy.Ringbuf.Valid.{
  IsValid, item_at, contents, mod_len-some, store-some, slot_ne, slot_ne_of_ne, slot_lt, slot_shift,
}
use dendy.Ringbuf.Push.{Holds}
use dendy.Ringbuf.Trunc.{back_slot, mod_len_back-some}

module _ {ℓ} {T : Type ℓ} where
  -- The slot that is read, in bounds.
  pub get_slot :
      (q : Buffer T) (i : ℕ)
      → IsValid q
      → get_elem? q.items ((q.head + i) % q.capacity) ≡ some (item_at q i)
  get_slot q i v =
      get_elem?-eq-get_or q.items ((q.head + i) % q.capacity) q.empty_value
        (rw v.sized (slot_lt (q.head + i) q.capacity v.roomy))

  head_slot : (q : Buffer T) → IsValid q → (q.head + 0) % q.capacity ≡ q.head
  head_slot q v = ap (λ t. t % q.capacity) {y = q.head} (omega arith) ∙ mod-eq_of_lt v.head_in

  last_slot :
      (q : Buffer T)
      → IsValid q
      → 0 < q.len
      → mod_len_back q.items q.tail 1 ≡ some ((q.head + (q.len - 1)) % q.capacity)
  last_slot q v h =
      mod_len_back-some q.items q.tail 1 q.capacity v.sized v.roomy (omega (arith, v.roomy))
      ∙ ap some (
          ap (λ t. (t + q.capacity - 1) % q.capacity) v.tail_at
          ∙ ap (λ t. ((q.head + q.len) % q.capacity + q.capacity - t) % q.capacity) {y = 1 + 0}
              (omega arith)
          ∙ back_slot q.head q.len 0 q.capacity v.head_in v.fits h
          ∙ ap (λ t. (q.head + t) % q.capacity) {y = q.len - 1} (omega arith))

  contents-cons :
      (q : Buffer T)
      → 0 < q.len
      → contents q ≡ item_at q 0 ∷ tabulate (q.len - 1) (λ i. item_at q (suc i))
  contents-cons q h = ap (λ n. tabulate n (item_at q)) {y = suc (q.len - 1)} (omega arith)

  contents_snoc :
      (q : Buffer T)
      → 0 < q.len
      → contents q ≡ tabulate (q.len - 1) (item_at q) ++ (item_at q (q.len - 1) ∷ [])
  contents_snoc q h =
      ap (λ n. tabulate n (item_at q)) {y = suc (q.len - 1)} (omega arith)
      ∙ tabulate_snoc (q.len - 1) (item_at q)

  -- What a pop leaves: the item, and a valid buffer of the rest.
  pub record Pops (q : Buffer T) (result : Option (T × Buffer T)) : Type ℓ where
    pub item : T
    pub out : Buffer T
    pub returns : result ≡ some (item, out)
    pub valid : IsValid out
    pub same_capacity : out.capacity ≡ q.capacity

  pub record PopsFront (q : Buffer T) (result : Option (T × Buffer T)) : Type ℓ where
    pub pops : Pops q result
    pub splits : contents q ≡ pops.item ∷ contents pops.out

  pub record PopsBack (q : Buffer T) (result : Option (T × Buffer T)) : Type ℓ where
    pub pops : Pops q result
    pub splits : contents q ≡ contents pops.out ++ (pops.item ∷ [])

  -- `PopFront` splits off the oldest item.
  pub pop_front-PopsFront : (q : Buffer T) → IsValid q → 0 < q.len → PopsFront q (pop_front q)
  unfolding pop_front
  pop_front-PopsFront q v h =
      let c = q.capacity in
      let blanked = set q.items q.head q.empty_value in
      let out : Buffer T = record q { items = blanked; head = (q.head + 1) % c; len = q.len - 1 } in
      record {
        pops = record {
          item = item_at q 0;
          out = out;
          returns =
              let busy : (q.len == 0) ≡ false = ground arith in
              rw (
                busy,
                ap (get_elem? q.items) (sym (head_slot q v)) ∙ get_slot q 0 v,
                store-some q.items q.head q.empty_value (rw v.sized v.head_in),
                mod_len-some blanked (q.head + 1) c
                    (length-set q.items q.head q.empty_value ∙ v.sized) v.roomy,
              );
          valid = record {
            sized = length-set q.items q.head q.empty_value ∙ v.sized;
            roomy = v.roomy;
            fits = omega (arith, v.fits);
            head_in = slot_lt (q.head + 1) c v.roomy;
            tail_at =
                v.tail_at
                ∙ ap (λ t. (q.head + t) % c) {y = 1 + (q.len - 1)} (omega arith)
                ∙ sym (slot_shift q.head 1 (q.len - 1) c);
          };
          same_capacity = refl;
        };
        splits =
            contents-cons q h
            ∙ ap (◌∷◌ (item_at q 0)) (
                tabulate_ext (q.len - 1) (λ i. item_at q (suc i)) (item_at out)
                  (λ i p. sym (
                    ap (λ t. get_or blanked t q.empty_value)
                      (slot_shift q.head 1 i c
                        ∙ ap (λ t. (q.head + t) % c) {y = suc i} (omega arith))
                    ∙ get_or-set_ne q.items q.head ((q.head + suc i) % c) q.empty_value
                        q.empty_value
                        (λ e.
                          slot_ne q.head 0 (suc i) c v.head_in (omega arith) (omega (arith, v.fits))
                            (head_slot q v ∙ e)))));
      }

  -- `PopBack` splits off the newest.
  pub pop_back-PopsBack : (q : Buffer T) → IsValid q → 0 < q.len → PopsBack q (pop_back q)
  unfolding pop_back
  pop_back-PopsBack q v h =
      let c = q.capacity in
      let last = (q.head + (q.len - 1)) % c in
      let blanked = set q.items last q.empty_value in
      let out : Buffer T = record q { items = blanked; tail = last; len = q.len - 1 } in
      record {
        pops = record {
          item = item_at q (q.len - 1);
          out = out;
          returns =
              let busy : (q.len == 0) ≡ false = ground arith in
              rw (
                busy,
                last_slot q v h,
                get_slot q (q.len - 1) v,
                store-some q.items last q.empty_value
                    (rw v.sized (slot_lt (q.head + (q.len - 1)) c v.roomy)),
              );
          valid = record {
            sized = length-set q.items last q.empty_value ∙ v.sized;
            roomy = v.roomy;
            fits = omega (arith, v.fits);
            head_in = v.head_in;
            tail_at = refl;
          };
          same_capacity = refl;
        };
        splits =
            contents_snoc q h
            ∙ ap (λ xs. xs ++ (item_at q (q.len - 1) ∷ []))
                (tabulate_ext (q.len - 1) (item_at q) (item_at out) (λ i p. sym (
                  get_or-set_ne q.items last ((q.head + i) % c) q.empty_value q.empty_value (λ e.
                    slot_ne q.head i (q.len - 1) c v.head_in p (omega (arith, v.fits)) (sym e)))));
      }

  pub front-some : (q : Buffer T) → IsValid q → 0 < q.len → front q ≡ some (item_at q 0)
  unfolding front
  front-some q v h =
      let busy : (q.len == 0) ≡ false = ground arith in
      rw busy (ap (get_elem? q.items) (sym (head_slot q v)) ∙ get_slot q 0 v)

  pub back-some : (q : Buffer T) → IsValid q → 0 < q.len → back q ≡ some (item_at q (q.len - 1))
  unfolding back
  back-some q v h =
      let busy : (q.len == 0) ≡ false = ground arith in
      rw (busy, last_slot q v h) (get_slot q (q.len - 1) v)

  -- `At(i)` is item `i` of the contents, for every `i` within them.
  pub at_some :
      (q : Buffer T) (i : ℕ) → IsValid q → i < q.len → at q (pos i) ≡ get_elem? (contents q) i
  unfolding at
  at_some q i v h =
      let inside : leb q.len i ≡ false = ground arith in
      rw (inside, mod_len-some q.items (q.head + i) q.capacity v.sized v.roomy)
        (get_slot q i v ∙ sym (get_elem?-tabulate q.len i (item_at q) h))

  -- `Set(i, x)` replaces that item and no other.
  pub set_at-Holds :
      (q : Buffer T) (i : ℕ) (x : T)
      → IsValid q
      → i < q.len
      → Holds q (set_at q (pos i) x) (set (contents q) i x)
  unfolding set_at
  set_at-Holds q i x v h =
      let c = q.capacity in
      let j = (q.head + i) % c in
      let in_range : j < length q.items = rw v.sized (slot_lt (q.head + i) c v.roomy) in
      let out : Buffer T = record q { items = set q.items j x } in
      record {
        out = out;
        returns =
            let inside : leb q.len i ≡ false = ground arith in
            rw (
              inside,
              mod_len-some q.items (q.head + i) c v.sized v.roomy,
              store-some q.items j x in_range,
            );
        valid = record {
          sized = length-set q.items j x ∙ v.sized;
          roomy = v.roomy;
          fits = v.fits;
          head_in = v.head_in;
          tail_at = v.tail_at;
        };
        same_capacity = refl;
        same_empty = refl;
        holds =
            tabulate_ext q.len (item_at out) (λ k. if k == i then x else item_at q k)
              (λ k p. written k p)
            ∙ sym (set-tabulate q.len i (item_at q) x h);
      }
    where
      slot : ℕ
      slot = (q.head + i) % q.capacity

      written :
          (k : ℕ)
          → k < q.len
          → get_or
              (set q.items ((q.head + i) % q.capacity) x)
              ((q.head + k) % q.capacity)
              q.empty_value
            ≡ (if k == i then x else item_at q k)
      written k p = elim (ℕ_discrete k i) [
        | yes e ↦
            let same : (k == i) ≡ true = ground arith in
            rw same (
              ap (λ m. get_or (set q.items slot x) ((q.head + m) % q.capacity) q.empty_value) e
              ∙ get_or-set_self q.items slot x q.empty_value
                  (rw v.sized (slot_lt (q.head + i) q.capacity v.roomy)))
        | no ne ↦
            let other : (k == i) ≡ false = ground arith in
            rw other (
              get_or-set_ne q.items slot ((q.head + k) % q.capacity) x q.empty_value (
                slot_ne_of_ne q.head i k q.capacity v.head_in (omega (arith, v.fits))
                  (omega (arith, v.fits)) (λ e. ne (sym e))))
      ]
