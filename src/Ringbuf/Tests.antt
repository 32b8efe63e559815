-- ===== src/Ringbuf/Tests.antt =====
-- The theorems at concrete buffers.
use dendy.Prelude.{ℕ, ◌≡◌, refl, arith, true, List, [], ◌∷◌, pos}
use dendy.Ringbuf.{
  Buffer, grow, push_back, push_loop, push_back_evict, pop_front, pop_back, trunc_front, trunc_back,
  blank_front, blank_back, at, set_at, clear, front, back, empty, full,
}
use dendy.Ringbuf.Valid.{IsValid}
use dendy.Ringbuf.Calls.{
  Call, pushes, evicts, pops_front, pops_back, truncates_front, truncates_back, sets, reads, clears,
  fronts, backs, counts, capacities, empties, fulls, nothing, item, number, flag, step,
  abstract_step, run, abstract_run,
}
use dendy.Ringbuf.Agree.{Agrees}
use dendy.Ringbuf.Refine.{step-Agrees, run_refines}
use dendy.Ringbuf.Grow.{Grows, GrowsPast, grow-Grows, grow_full-pop-push_panics}

-- 8, then 9, round the end of the storage.
abbrev wrapped : Buffer ℕ
wrapped = record {
  empty_value = 0;
  items = 9 ∷ 0 ∷ 8 ∷ [];
  capacity = 3;
  len = 2;
  head = 2;
  tail = 1;
}

abbrev crowded : Buffer ℕ
crowded = record {
  empty_value = 0;
  items = 9 ∷ 7 ∷ 8 ∷ [];
  capacity = 3;
  len = 3;
  head = 2;
  tail = 2;
}

wrapped-IsValid : IsValid wrapped
wrapped-IsValid = omega arith

crowded-IsValid : IsValid crowded
crowded-IsValid = omega arith

abbrev script : List (Call ℕ)
script =
    reads (pos 1)
    ∷ evicts (1 ∷ 2 ∷ [])
    ∷ pops_back
    ∷ pops_front
    ∷ sets (pos 0) 5
    ∷ pushes (6 ∷ 7 ∷ [])
    ∷ truncates_back (pos 1)
    ∷ reads (pos 0)
    ∷ truncates_front (pos 1)
    ∷ reads (pos 0)
    ∷ pushes (3 ∷ 4 ∷ [])
    ∷ fronts
    ∷ backs
    ∷ counts
    ∷ fulls
    ∷ clears
    ∷ empties
    ∷ capacities
    ∷ pops_front
    ∷ []

script_answers :
    (run wrapped script).0
    ≡ item 9
      ∷ nothing
      ∷ item 2
      ∷ item 9
      ∷ nothing
      ∷ nothing
      ∷ nothing
      ∷ item 5
      ∷ nothing
      ∷ item 6
      ∷ nothing
      ∷ item 6
      ∷ item 4
      ∷ number 3
      ∷ flag true
      ∷ nothing
      ∷ flag true
      ∷ number 3
      ∷ []
unfolding run step push_back push_loop push_back_evict pop_front pop_back trunc_front trunc_back
    blank_front blank_back at set_at clear front back empty full
script_answers = refl

step-Agrees_example :
    Agrees wrapped
      (step wrapped (evicts (1 ∷ 2 ∷ [])))
      (abstract_step 3 (8 ∷ 9 ∷ []) (evicts (1 ∷ 2 ∷ [])))
step-Agrees_example = step-Agrees wrapped (evicts (1 ∷ 2 ∷ [])) wrapped-IsValid

run_refines_example : run wrapped script ≡ abstract_run 3 (8 ∷ 9 ∷ []) script
run_refines_example = run_refines script wrapped wrapped-IsValid

grow-Grows_example : Grows wrapped 5 (grow 0 wrapped (pos 5))
grow-Grows_example = grow-Grows 0 wrapped 5 wrapped-IsValid (omega arith) (omega arith)

grow_full-pop-push_panics_example : GrowsPast 0 crowded 4
grow_full-pop-push_panics_example = grow_full-pop-push_panics 0 crowded 4 crowded-IsValid refl
