-- ===== src/Active/Queue.antt =====
-- src/g3log/shared_queue.hpp: the members of the queue, each of which holds the mutex throughout.
use myg3log.Base.{ℕ, Bool, true, false, List, [], ◌∷◌, ◌++◌, Option, none, some, length, ◌%◌, ◌^◌}

module _ {ℓ} {T : Type ℓ} where
  -- `push(item)`.
  unfoldable pub push : T → List T → List T
  push item queue = queue ++ item ∷ []

  -- `try_and_pop(popped_item)`: whether there was an item, the item, and the queue left.
  unfoldable pub try_and_pop : List T → Bool × Option T × List T
  try_and_pop [] = (false, none, [])
  try_and_pop (item ∷ queue) = (true, some item, queue)

  -- `wait_and_pop(popped_item)`; `none` while the queue is empty, where the caller waits.
  unfoldable pub wait_and_pop : List T → Option (T × List T)
  wait_and_pop [] = none
  wait_and_pop (item ∷ queue) = some (item, queue)

  -- `empty()`.
  unfoldable pub empty : List T → Bool
  empty [] = true
  empty (item ∷ queue) = false

  -- `size()`, an `unsigned` of 32 bits.
  unfoldable pub size : List T → ℕ
  size queue = length queue % 2 ^ 32
