-- ===== src/Ringbuf.antt =====
-- internal/ringbuf/buffer.go, the ring buffer behind the inputs and the round-trip window of
-- netplay. `none` is a panic: the explicit ones, an index out of range, a division by zero.
-- Go's `int` does not overflow here: lengths and indices stay far below 2 ^ 63.
pub mod Deque
pub mod Valid
pub mod Push
pub mod Trunc
pub mod Access
pub mod Grow
pub mod Calls
pub mod Agree
pub mod Looks
pub mod Refine
mod Tests
use dendy.Prelude.{
  ℕ, zero, suc, ◌+◌, ◌-◌, ◌%◌, ltb, leb, ◌==◌, if◌then◌else◌, Bool, Option, none, some, ◌>>=◌, List,
  [], ◌∷◌, length, get_elem?, set, replicate, ℤ, pos, negsuc, ◌||◌,
}

pub record Buffer {ℓ} (T : Type ℓ) : Type ℓ where
  pub empty_value : T
  pub items : List T
  pub capacity : ℕ
  pub len : ℕ  -- the field `length`
  pub head : ℕ
  pub tail : ℕ

module _ {ℓ} {T : Type ℓ} where
  -- `x % len(items)`
  abbrev pub mod_len : List T → ℕ → Option ℕ
  mod_len items x = if length items == 0 then none else some (x % length items)

  -- `(tail - k + len(items)) % len(items)`; Go's remainder of a negative number is negative or 0.
  abbrev pub mod_len_back : List T → ℕ → ℕ → Option ℕ
  mod_len_back items tail k =
      if ltb (tail + length items) k
      then (if (k - tail - length items) % length items == 0 then mod_len items 0 else none)
      else mod_len items (tail + length items - k)

  -- `items[i] = v`
  abbrev pub store : List T → ℕ → T → Option (List T)
  store items i v = if ltb i (length items) then some (set items i v) else none

  -- `zero_value` is Go's zero value of the element type.
  unfoldable pub new : T → ℕ → Buffer T
  new zero_value capacity = record {
    empty_value = zero_value;
    items = replicate capacity zero_value;
    capacity = capacity;
    len = 0;
    head = 0;
    tail = 0;
  }

  -- The loop of `Grow` from `i` on, with the rounds that are left.
  pub grow_loop : Buffer T → ℕ → ℕ → List T → Option (List T)
  grow_loop q zero i new_items = some new_items
  grow_loop q (suc left) i new_items = do
    j ← mod_len q.items (q.head + i)
    item ← get_elem? q.items j
    stored ← store new_items i item
    grow_loop q left (i + 1) stored

  -- `make` fills with the zero value of the type, not with `EmptyValue`.
  pub grow : T → Buffer T → ℤ → Option (Buffer T)
  grow zero_value q (negsuc n) = none
  grow zero_value q (pos capacity) = if ltb capacity q.capacity then none else (do
    new_items ← grow_loop q q.len 0 (replicate capacity zero_value)
    some (record q { items = new_items; capacity = capacity; head = 0; tail = q.len }))

  unfoldable pub push_loop : Buffer T → List T → Option (Buffer T)
  push_loop q [] = some q
  push_loop q (item ∷ rest) = do
    stored ← store q.items q.tail item
    next ← mod_len stored (q.tail + 1)
    push_loop (record q { items = stored; tail = next; len = q.len + 1 }) rest

  unfoldable pub push_back : Buffer T → List T → Option (Buffer T)
  push_back q items = if ltb q.capacity (q.len + length items) then none else push_loop q items

  -- `items[(head + i) % len(items)] = EmptyValue` for the rounds that are left.
  unfoldable pub blank_front : T → ℕ → ℕ → ℕ → List T → Option (List T)
  blank_front empty head zero i items = some items
  blank_front empty head (suc left) i items = do
    j ← mod_len items (head + i)
    stored ← store items j empty
    blank_front empty head left (i + 1) stored

  unfoldable pub trunc_front : Buffer T → ℤ → Option (Buffer T)
  trunc_front q (negsuc n) = none
  trunc_front q (pos n) = if ltb q.len n then none else (do
    blanked ← blank_front q.empty_value q.head n 0 q.items
    new_head ← mod_len blanked (q.head + n)
    new_tail ← mod_len blanked (new_head + (q.len - n))
    some (record q { items = blanked; len = q.len - n; head = new_head; tail = new_tail }))

  pub push_back_evict : Buffer T → List T → Option (Buffer T)
  unfolding push_back trunc_front
  push_back_evict q items =
      if ltb q.capacity (length items)
      then none
      else if ltb (q.capacity - q.len) (length items)
      then (do
        evicted ← trunc_front q (pos (length items - (q.capacity - q.len)))
        push_back evicted items)
      else push_back q items

  pub pop_front : Buffer T → Option (T × Buffer T)
  pop_front q = if q.len == 0 then none else (do
    item ← get_elem? q.items q.head
    stored ← store q.items q.head q.empty_value
    next ← mod_len stored (q.head + 1)
    some (item, record q { items = stored; head = next; len = q.len - 1 }))

  pub pop_back : Buffer T → Option (T × Buffer T)
  pop_back q = if q.len == 0 then none else (do
    last ← mod_len_back q.items q.tail 1
    item ← get_elem? q.items last
    stored ← store q.items last q.empty_value
    some (item, record q { items = stored; tail = last; len = q.len - 1 }))

  -- `items[(tail - 1 - i + len(items)) % len(items)] = EmptyValue` for the rounds that are left.
  pub blank_back : T → ℕ → ℕ → ℕ → List T → Option (List T)
  blank_back empty tail zero i items = some items
  blank_back empty tail (suc left) i items = do
    j ← mod_len_back items tail (1 + i)
    stored ← store items j empty
    blank_back empty tail left (i + 1) stored

  pub trunc_back : Buffer T → ℤ → Option (Buffer T)
  trunc_back q (negsuc n) = none
  trunc_back q (pos n) = if ltb q.len n then none else (do
    blanked ← blank_back q.empty_value q.tail n 0 q.items
    new_tail ← mod_len blanked (q.head + (q.len - n))
    some (record q { items = blanked; len = q.len - n; tail = new_tail }))

  pub front : Buffer T → Option T
  front q = if q.len == 0 then none else get_elem? q.items q.head

  pub back : Buffer T → Option T
  back q =
      if q.len == 0 then none else (do last ← mod_len_back q.items q.tail 1; get_elem? q.items last)

  unfoldable pub at : Buffer T → ℤ → Option T
  at q (negsuc n) = none
  at q (pos i) =
      if leb q.len i then none else (do j ← mod_len q.items (q.head + i); get_elem? q.items j)

  unfoldable pub set_at : Buffer T → ℤ → T → Option (Buffer T)
  set_at q (negsuc n) item = none
  set_at q (pos i) item = if leb q.len i then none else (do
    j ← mod_len q.items (q.head + i)
    stored ← store q.items j item
    some (record q { items = stored }))

  pub empty : Buffer T → Bool
  empty q = q.len == 0

  pub full : Buffer T → Bool
  full q = q.len == q.capacity

  pub clear : Buffer T → Option (Buffer T)
  clear q = do
    blanked ← blank_front q.empty_value q.head q.len 0 q.items
    some (record q { items = blanked; head = 0; tail = 0; len = 0 })
