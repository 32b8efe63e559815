-- ===== src/Ringbuf/Deque.antt =====
-- What a ring buffer of a given capacity promises: a bounded sequence, oldest item first, with
-- the same panics (`none`).
use dendy.Prelude.{
  ℕ, ◌+◌, ◌-◌, ltb, leb, ◌==◌, if◌then◌else◌, Option, none, some, ◌>>=◌, List, [], ◌∷◌, ◌++◌,
  length, get_elem?, set, take, drop, ℤ, pos, negsuc,
}

module _ {ℓ} {T : Type ℓ} where
  unfoldable pub push_back : ℕ → List T → List T → Option (List T)
  push_back capacity xs items =
      if ltb capacity (length xs + length items) then none else some (xs ++ items)

  unfoldable pub trunc_front : List T → ℤ → Option (List T)
  trunc_front xs (negsuc n) = none
  trunc_front xs (pos n) = if ltb (length xs) n then none else some (drop n xs)

  unfoldable pub trunc_back : List T → ℤ → Option (List T)
  trunc_back xs (negsuc n) = none
  trunc_back xs (pos n) = if ltb (length xs) n then none else some (take (length xs - n) xs)

  -- The oldest items give way to the new ones.
  unfoldable pub push_back_evict : ℕ → List T → List T → Option (List T)
  push_back_evict capacity xs items =
      if ltb capacity (length items)
      then none
      else some (drop (length xs + length items - capacity) xs ++ items)

  unfoldable pub pop_front : List T → Option (T × List T)
  pop_front [] = none
  pop_front (x ∷ xs) = some (x, xs)

  unfoldable pub pop_back : List T → Option (T × List T)
  pop_back xs =
      if length xs == 0
      then none
      else (do x ← get_elem? xs (length xs - 1); some (x, take (length xs - 1) xs))

  unfoldable pub at : List T → ℤ → Option T
  at xs (negsuc n) = none
  at xs (pos i) = get_elem? xs i

  unfoldable pub set_at : List T → ℤ → T → Option (List T)
  set_at xs (negsuc n) item = none
  set_at xs (pos i) item = if leb (length xs) i then none else some (set xs i item)

  unfoldable pub front : List T → Option T
  front xs = get_elem? xs 0

  unfoldable pub back : List T → Option T
  back xs = if length xs == 0 then none else get_elem? xs (length xs - 1)
