-- ===== src/Ringbuf/Looks.antt =====
-- The calls that change nothing agree: the ends of the buffer, and its sizes.
use dendy.Prelude.{
  ℕ, ◌-◌, ◌≡◌, refl, ap, arith, ◌==◌, true, false, some, length, get_elem?_ge, get_elem?-tabulate,
}
use native.Mathlib.Decide.{dec_lt}
use dendy.Ringbuf.{Buffer, front, back, empty, full}
use dendy.Ringbuf.Deque
use dendy.Ringbuf.Valid.{IsValid, item_at, contents, length-contents}
use dendy.Ringbuf.Access.{front-some, back-some}
use dendy.Ringbuf.Calls.{Answer, item, flag, looks}
use dendy.Ringbuf.Agree.{Agrees, both_panic, both_answer}

module _ {ℓ} {T : Type ℓ} where
  pub fronts-Agrees :
      (q : Buffer T)
      → IsValid q
      → Agrees q (looks q (front q)) (looks (contents q) (Deque.front (contents q)))
  unfolding Deque.front
  fronts-Agrees q v = elim (dec_lt 0 q.len) [
    | yes busy ↦
        let e = get_elem?-tabulate q.len 0 (item_at q) busy in
        both_answer (item (item_at q 0)) q (rw (front-some q v busy)) (rw e) v refl
    | no idle ↦
        both_panic (unfold front in ground arith)
          (rw (get_elem?_ge (contents q) 0 (omega (arith, length-contents q))))
  ]

  pub backs-Agrees :
      (q : Buffer T)
      → IsValid q
      → Agrees q (looks q (back q)) (looks (contents q) (Deque.back (contents q)))
  unfolding Deque.back
  backs-Agrees q v = elim (dec_lt 0 q.len) [
    | yes busy ↦
        let e = get_elem?-tabulate q.len (q.len - 1) (item_at q) (omega arith) in
        let some_items : (q.len == 0) ≡ false = ground arith in
        both_answer (item (item_at q (q.len - 1))) q (rw (back-some q v busy))
          (rw (length-contents q, some_items, e)) v refl
    | no idle ↦
        both_panic (unfold back in ground arith)
          (let none_left : (q.len == 0) ≡ true = ground arith in rw (length-contents q, none_left))
  ]

  -- A question to the buffer about its sizes.
  pub asks-Agrees :
      (q : Buffer T) (answer answer' : Answer T)
      → IsValid q
      → answer' ≡ answer
      → Agrees q (some (answer, q)) (some (answer', contents q))
  asks-Agrees q answer answer' v e =
      both_answer answer q refl (ap (λ t. some (t, contents q)) e) v refl

  pub empties-Agrees :
      (q : Buffer T)
      → IsValid q
      → Agrees q (some (flag (empty q), q)) (some (flag (length (contents q) == 0), contents q))
  unfolding empty
  empties-Agrees q v = asks-Agrees q _ _ v (ap (λ (n : ℕ). flag (n == 0)) (length-contents q))

  pub fulls-Agrees :
      (q : Buffer T)
      → IsValid q
      → Agrees q
          (some (flag (full q), q))
          (some (flag (length (contents q) == q.capacity), contents q))
  unfolding full
  fulls-Agrees q v =
      asks-Agrees q _ _ v (ap (λ (n : ℕ). flag (n == q.capacity)) (length-contents q))
