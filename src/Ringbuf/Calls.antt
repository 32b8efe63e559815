-- ===== src/Ringbuf/Calls.antt =====
-- A client's calls on a ring buffer in order, with what each answers, on the buffer and on the
-- bounded sequence of `Deque`: all methods of the buffer but `Grow`, which changes the capacity.
use dendy.Prelude.{ℕ, Bool, true, false, none, some, Option, List, [], ◌∷◌, ℤ, length, ◌==◌}
use dendy.Ringbuf.{
  Buffer, push_back, push_back_evict, trunc_front, trunc_back, pop_front, pop_back, at, set_at,
  clear, front, back, empty, full,
}
use dendy.Ringbuf.Deque

pub data Call {ℓ} (T : Type ℓ) : Type ℓ where
  pushes : List T → Call T
  evicts : List T → Call T
  pops_front : Call T
  pops_back : Call T
  truncates_front : ℤ → Call T
  truncates_back : ℤ → Call T
  sets : ℤ → T → Call T
  reads : ℤ → Call T
  clears : Call T
  fronts : Call T
  backs : Call T
  counts : Call T
  capacities : Call T
  empties : Call T
  fulls : Call T

-- What a method returns.
pub data Answer {ℓ} (T : Type ℓ) : Type ℓ where
  nothing : Answer T
  item : T → Answer T
  number : ℕ → Answer T
  flag : Bool → Answer T

module _ {ℓ} {T : Type ℓ} where
  -- A call that answers nothing, and one that answers an item.
  abbrev pub silent {κ} : {S : Type κ} → Option S → Option (Answer T × S)
  silent none = none
  silent (some s) = some (nothing, s)

  abbrev pub speaks {κ} : {S : Type κ} → Option (T × S) → Option (Answer T × S)
  speaks none = none
  speaks (some (x, s)) = some (item x, s)

  abbrev pub looks {κ} : {S : Type κ} → S → Option T → Option (Answer T × S)
  looks s none = none
  looks s (some x) = some (item x, s)

  unfoldable pub step : Buffer T → Call T → Option (Answer T × Buffer T)
  step q (pushes xs) = silent (push_back q xs)
  step q (evicts xs) = silent (push_back_evict q xs)
  step q pops_front = speaks (pop_front q)
  step q pops_back = speaks (pop_back q)
  step q (truncates_front n) = silent (trunc_front q n)
  step q (truncates_back n) = silent (trunc_back q n)
  step q (sets i x) = silent (set_at q i x)
  step q (reads i) = looks q (at q i)
  step q clears = silent (clear q)
  step q fronts = looks q (front q)
  step q backs = looks q (back q)
  step q counts = some (number q.len, q)
  step q capacities = some (number q.capacity, q)
  step q empties = some (flag (empty q), q)
  step q fulls = some (flag (full q), q)

  unfoldable pub abstract_step : ℕ → List T → Call T → Option (Answer T × List T)
  abstract_step capacity xs (pushes ys) = silent (Deque.push_back capacity xs ys)
  abstract_step capacity xs (evicts ys) = silent (Deque.push_back_evict capacity xs ys)
  abstract_step capacity xs pops_front = speaks (Deque.pop_front xs)
  abstract_step capacity xs pops_back = speaks (Deque.pop_back xs)
  abstract_step capacity xs (truncates_front n) = silent (Deque.trunc_front xs n)
  abstract_step capacity xs (truncates_back n) = silent (Deque.trunc_back xs n)
  abstract_step capacity xs (sets i x) = silent (Deque.set_at xs i x)
  abstract_step capacity xs (reads i) = looks xs (Deque.at xs i)
  abstract_step capacity xs clears = some (nothing, [])
  abstract_step capacity xs fronts = looks xs (Deque.front xs)
  abstract_step capacity xs backs = looks xs (Deque.back xs)
  abstract_step capacity xs counts = some (number (length xs), xs)
  abstract_step capacity xs capacities = some (number capacity, xs)
  abstract_step capacity xs empties = some (flag (length xs == 0), xs)
  abstract_step capacity xs fulls = some (flag (length xs == capacity), xs)

  -- The answers of a run, and whether it came to its end without a panic.
  unfoldable pub run : Buffer T → List (Call T) → List (Answer T) × Bool
  run q [] = ([], true)
  run q (c ∷ cs) = elim (step q c) [
    | none ↦ ([], false)
    | some (r, q') ↦ let (rs, ended) = run q' cs in (r ∷ rs, ended)
  ]

  unfoldable pub abstract_run : ℕ → List T → List (Call T) → List (Answer T) × Bool
  abstract_run capacity xs [] = ([], true)
  abstract_run capacity xs (c ∷ cs) = elim (abstract_step capacity xs c) [
    | none ↦ ([], false)
    | some (r, ys) ↦ let (rs, ended) = abstract_run capacity ys cs in (r ∷ rs, ended)
  ]
