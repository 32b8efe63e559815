-- ===== src/Ringbuf/Agree.antt =====
-- Each call on a valid buffer agrees with the same call on the sequence that it holds.
use dendy.Prelude.{
  suc, ◌+◌, ◌-◌, ◌≤◌, ◌≡◌, refl, sym, ap, ◌∙◌, arith, ltb, ◌==◌, true, false, none, some, Option,
  List, [], ◌∷◌, ◌++◌, length, drop, tabulate, length-append, length-drop, get_elem?_ge,
  get_elem?_last, take_init, drop_all, get_elem?-tabulate, ℤ, pos, negsuc,
}
use native.Mathlib.Decide.{dec_lt}
use dendy.Ringbuf.{
  Buffer, push_back, push_back_evict, trunc_front, trunc_back, pop_front, pop_back, at, set_at,
  clear,
}
use dendy.Ringbuf.Deque
use dendy.Ringbuf.Valid.{IsValid, item_at, contents, length-contents}
use dendy.Ringbuf.Push.{Holds, push_back-Holds, push_back_panics}
use dendy.Ringbuf.Trunc.{trunc_front-Holds, trunc_back-Holds, clear-Holds}
use dendy.Ringbuf.Access.{pop_front-PopsFront, pop_back-PopsBack, at_some, set_at-Holds}
use dendy.Ringbuf.Calls.{Answer, nothing, item, silent, speaks, looks}

module _ {ℓ} {T : Type ℓ} where
  -- Either both panic, or both answer alike and the new buffer holds the new sequence.
  pub data Agrees (q : Buffer T) (result : Option (Answer T × Buffer T))
      (expected : Option (Answer T × List T)) : Type ℓ where
    both_panic : result ≡ none → expected ≡ none → Agrees q result expected
    both_answer :
        (r : Answer T) (out : Buffer T)
        → result ≡ some (r, out)
        → expected ≡ some (r, contents out)
        → IsValid out
        → out.capacity ≡ q.capacity
        → Agrees q result expected

  Holds-Agrees :
      {q : Buffer T} {result : Option (Buffer T)} {xs : List T} {expected : Option (List T)}
      → Holds q result xs
      → expected ≡ some xs
      → Agrees q (silent result) (silent expected)
  Holds-Agrees h e =
      both_answer nothing h.out (rw h.returns) (rw e (ap (λ xs. some (nothing, xs)) (sym h.holds)))
        h.valid h.same_capacity

  pub pushes-Agrees :
      (q : Buffer T) (xs : List T)
      → IsValid q
      → Agrees q (silent (push_back q xs)) (silent (Deque.push_back q.capacity (contents q) xs))
  unfolding Deque.push_back
  pushes-Agrees q xs v = elim (dec_lt q.capacity (q.len + length xs)) [
    | yes over ↦ both_panic (rw (push_back_panics q xs over)) (ground (arith, length-contents q))
    | no fits ↦
        Holds-Agrees (push_back-Holds q xs v (omega arith)) (ground (arith, length-contents q))
  ]

  pub truncates_front-Agrees :
      (q : Buffer T) (n : ℤ)
      → IsValid q
      → Agrees q (silent (trunc_front q n)) (silent (Deque.trunc_front (contents q) n))
  unfolding Deque.trunc_front
  truncates_front-Agrees q (negsuc n) v = both_panic (unfold trunc_front in refl) refl
  truncates_front-Agrees q (pos n) v = elim (dec_lt q.len n) [
    | yes over ↦ both_panic (unfold trunc_front in ground arith) (ground (arith, length-contents q))
    | no fits ↦
        Holds-Agrees (trunc_front-Holds q n v (omega arith)) (ground (arith, length-contents q))
  ]

  pub truncates_back-Agrees :
      (q : Buffer T) (n : ℤ)
      → IsValid q
      → Agrees q (silent (trunc_back q n)) (silent (Deque.trunc_back (contents q) n))
  unfolding Deque.trunc_back
  truncates_back-Agrees q (negsuc n) v = both_panic (unfold trunc_back in refl) refl
  truncates_back-Agrees q (pos n) v = elim (dec_lt q.len n) [
    | yes over ↦ both_panic (unfold trunc_back in ground arith) (ground (arith, length-contents q))
    | no fits ↦
        Holds-Agrees (trunc_back-Holds q n v (omega arith)) (ground (arith, length-contents q))
  ]

  pub sets-Agrees :
      (q : Buffer T) (i : ℤ) (x : T)
      → IsValid q
      → Agrees q (silent (set_at q i x)) (silent (Deque.set_at (contents q) i x))
  unfolding Deque.set_at
  sets-Agrees q (negsuc n) x v = both_panic (unfold set_at in refl) refl
  sets-Agrees q (pos i) x v = elim (dec_lt i q.len) [
    | yes inside ↦ Holds-Agrees (set_at-Holds q i x v inside) (ground (arith, length-contents q))
    | no past ↦ both_panic (unfold set_at in ground arith) (ground (arith, length-contents q))
  ]

  -- With fewer free places than new items, `PushBackEvict` first drops as many old ones.
  evict-Holds :
      (q : Buffer T) (xs : List T)
      → IsValid q
      → length xs ≤ q.capacity
      → Holds q
          (push_back_evict q xs)
          (drop (length (contents q) + length xs - q.capacity) (contents q) ++ xs)
  unfolding push_back_evict
  evict-Holds q xs v small = elim (dec_lt (q.capacity - q.len) (length xs)) [
    | yes crowded ↦
        let n = length xs - (q.capacity - q.len) in
        let t = trunc_front-Holds q n v (omega (arith, v.fits)) in
        let left : t.out.len ≡ q.len - n = omega (
          arith,
          length-contents t.out,
          ap length t.holds,
          length-drop n (contents q),
          length-contents q,
        ) in
        let p = push_back-Holds t.out xs t.valid (omega (arith, t.same_capacity, v.fits)) in
        let small' : ltb q.capacity (length xs) ≡ false = ground arith in
        let crowded' : ltb (q.capacity - q.len) (length xs) ≡ true = ground arith in
        record {
          out = p.out;
          returns = rw (small', crowded', t.returns) p.returns;
          valid = p.valid;
          same_capacity = p.same_capacity ∙ t.same_capacity;
          same_empty = p.same_empty ∙ t.same_empty;
          holds =
              p.holds
              ∙ ap (λ ys. ys ++ xs)
                  (t.holds
                    ∙ ap (λ m. drop m (contents q))
                        {y = length (contents q) + length xs - q.capacity}
                        (omega (arith, length-contents q, v.fits)));
        }
    | no roomy ↦
        let p = push_back-Holds q xs v (omega (arith, v.fits)) in
        let small' : ltb q.capacity (length xs) ≡ false = ground arith in
        let roomy' : ltb (q.capacity - q.len) (length xs) ≡ false = ground arith in
        record {
          out = p.out;
          returns = rw (small', roomy') p.returns;
          valid = p.valid;
          same_capacity = p.same_capacity;
          same_empty = p.same_empty;
          holds =
              p.holds
              ∙ ap (λ m. drop m (contents q) ++ xs) {x = 0}
                  (omega (arith, length-contents q, v.fits));
        }
  ]

  pub evicts-Agrees :
      (q : Buffer T) (xs : List T)
      → IsValid q
      → Agrees q
          (silent (push_back_evict q xs))
          (silent (Deque.push_back_evict q.capacity (contents q) xs))
  unfolding Deque.push_back_evict
  evicts-Agrees q xs v = elim (dec_lt q.capacity (length xs)) [
    | yes over ↦ both_panic (unfold push_back_evict in ground arith) (ground arith)
    | no fits ↦ Holds-Agrees (evict-Holds q xs v (omega arith)) (ground arith)
  ]

  pub pops_front-Agrees :
      (q : Buffer T)
      → IsValid q
      → Agrees q (speaks (pop_front q)) (speaks (Deque.pop_front (contents q)))
  unfolding Deque.pop_front
  pops_front-Agrees q v = elim (dec_lt 0 q.len) [
    | yes busy ↦
        let p = pop_front-PopsFront q v busy in
        both_answer (item p.pops.item) p.pops.out (rw p.pops.returns) (rw p.splits) p.pops.valid
          p.pops.same_capacity
    | no idle ↦
        both_panic (unfold pop_front in ground arith)
          (let e : contents q ≡ [] = ap (λ n. tabulate n (item_at q)) {y = 0} (omega arith) in rw e)
  ]

  Deque-pop_back_snoc : (xs : List T) (x : T) → Deque.pop_back (xs ++ (x ∷ [])) ≡ some (x, xs)
  unfolding Deque.pop_back
  Deque-pop_back_snoc xs x =
      let n = length xs in
      let long : length (xs ++ (x ∷ [])) ≡ suc n = omega (arith, length-append xs (x ∷ [])) in
      let one : suc n - 1 ≡ n = omega arith in
      let busy : (suc n == 0) ≡ false = ground arith in
      rw (long, busy, one, get_elem?_last xs x, take_init xs x)

  pub pops_back-Agrees :
      (q : Buffer T)
      → IsValid q
      → Agrees q (speaks (pop_back q)) (speaks (Deque.pop_back (contents q)))
  pops_back-Agrees q v = elim (dec_lt 0 q.len) [
    | yes busy ↦
        let p = pop_back-PopsBack q v busy in
        both_answer (item p.pops.item) p.pops.out (rw p.pops.returns)
          (rw (p.splits, Deque-pop_back_snoc (contents p.pops.out) p.pops.item)) p.pops.valid
          p.pops.same_capacity
    | no idle ↦ both_panic (unfold pop_back in ground arith) (
        let e : contents q ≡ [] = ap (λ n. tabulate n (item_at q)) {y = 0} (omega arith) in
        unfold Deque.pop_back in rw e)
  ]

  pub reads-Agrees :
      (q : Buffer T) (i : ℤ)
      → IsValid q
      → Agrees q (looks q (at q i)) (looks (contents q) (Deque.at (contents q) i))
  unfolding Deque.at
  reads-Agrees q (negsuc n) v = both_panic (unfold at in refl) refl
  reads-Agrees q (pos i) v = elim (dec_lt i q.len) [
    | yes inside ↦
        let e = get_elem?-tabulate q.len i (item_at q) inside in
        both_answer (item (item_at q i)) q (rw (at_some q i v inside, e)) (rw e) v refl
    | no past ↦
        both_panic (unfold at in ground arith)
          (rw (get_elem?_ge (contents q) i (omega (arith, length-contents q))))
  ]

  pub clears-Agrees : (q : Buffer T) → IsValid q → Agrees q (silent (clear q)) (silent (some []))
  clears-Agrees q v =
      let h = clear-Holds q v in
      Holds-Agrees h
        (ap some (sym (drop_all (contents q) q.len (omega (arith, length-contents q)))))
