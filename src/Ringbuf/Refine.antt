-- ===== src/Ringbuf/Refine.antt =====
-- A valid buffer refines the bounded sequence: call by call, and over every run.
use dendy.Prelude.{◌≡◌, refl, ap, length, List, [], ◌∷◌}
use dendy.Ringbuf.{Buffer}
use dendy.Ringbuf.Valid.{IsValid, contents, length-contents}
use dendy.Ringbuf.Calls.{
  Call, pushes, evicts, pops_front, pops_back, truncates_front, truncates_back, sets, reads, clears,
  fronts, backs, counts, capacities, empties, fulls, number, step, abstract_step, run, abstract_run,
}
use dendy.Ringbuf.Agree.{
  Agrees, both_panic, both_answer, pushes-Agrees, truncates_front-Agrees, truncates_back-Agrees,
  sets-Agrees, evicts-Agrees, pops_front-Agrees, pops_back-Agrees, reads-Agrees, clears-Agrees,
}
use dendy.Ringbuf.Looks.{fronts-Agrees, backs-Agrees, asks-Agrees, empties-Agrees, fulls-Agrees}

module _ {ℓ} {T : Type ℓ} where
  -- Every call of a method but `Grow` (PushBack, PushBackEvict, PopFront, PopBack, TruncFront,
  -- TruncBack, Set, At, Clear, Front, Back, Len, Cap, Empty, Full) on a valid buffer agrees with
  -- the same call on the bounded sequence, panics included, and keeps the invariant and the
  -- capacity.
  pub step-Agrees :
      (q : Buffer T) (c : Call T)
      → IsValid q
      → Agrees q (step q c) (abstract_step q.capacity (contents q) c)
  unfolding step abstract_step
  step-Agrees q (pushes xs) v = pushes-Agrees q xs v
  step-Agrees q (evicts xs) v = evicts-Agrees q xs v
  step-Agrees q pops_front v = pops_front-Agrees q v
  step-Agrees q pops_back v = pops_back-Agrees q v
  step-Agrees q (truncates_front n) v = truncates_front-Agrees q n v
  step-Agrees q (truncates_back n) v = truncates_back-Agrees q n v
  step-Agrees q (sets i x) v = sets-Agrees q i x v
  step-Agrees q (reads i) v = reads-Agrees q i v
  step-Agrees q clears v = clears-Agrees q v
  step-Agrees q fronts v = fronts-Agrees q v
  step-Agrees q backs v = backs-Agrees q v
  step-Agrees q counts v =
      asks-Agrees q (number q.len) (number (length (contents q))) v (ap number (length-contents q))
  step-Agrees q capacities v = asks-Agrees q (number q.capacity) (number q.capacity) v refl
  step-Agrees q empties v = empties-Agrees q v
  step-Agrees q fulls v = fulls-Agrees q v

  -- No sequence of calls of the methods but `Grow` (PushBack, PushBackEvict, PopFront, PopBack,
  -- TruncFront, TruncBack, Set, At, Clear, Front, Back, Len, Cap, Empty, Full) tells a valid buffer
  -- from the bounded sequence of its contents: the answers are the same, and both panic at the same
  -- call or at none.
  pub run_refines :
      (cs : List (Call T)) (q : Buffer T)
      → IsValid q
      → run q cs ≡ abstract_run q.capacity (contents q) cs
  unfolding run abstract_run
  run_refines [] q v = refl
  run_refines (c ∷ cs) q v = elim (step-Agrees q c v) [
    | both_panic e f ↦ rw (e, f, run, abstract_run)
    | both_answer r out e f w same ↦ rw (e, f, run, abstract_run) (rw (run_refines cs out w, same))
  ]
